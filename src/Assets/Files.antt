-- ===== src/Assets/Files.antt =====
-- internal/assets/filesystem_store.go: the store over a directory, with the file system as a
-- parameter.
pub mod Laws
pub mod Listing
use receiptd.Base.{true, false, ℕ, Bool, Option, none, some, List, [], ◌∷◌, if◌then◌else◌}
use receiptd.Base.Text.{Text}
use receiptd.Apperr.{GoError, Kind, Arg, errorf, wrap, Result, ok, err}
use receiptd.Assets.{Info, Bytes, Store, validate_name}

-- An fs.DirEntry, with what its Info answers.
pub record DirEntry : Type 0 where
  pub name : Text
  pub is_dir : Bool
  pub info : Result (ℕ × ℕ)

-- os and filepath on a file system `S`: Join, ReadFile, MkdirAll, WriteFile, Remove and ReadDir,
-- and the test of an error for fs.ErrNotExist.
pub record Fs (S : Type 0) : Type 0 where
  pub join : Text → Text → Text
  pub read_file : Text → S → Result Bytes
  pub mkdir_all : Text → S → Option GoError × S
  pub write_file : Text → Bytes → ℕ → S → Option GoError × S
  pub remove : Text → S → Option GoError × S
  pub read_dir : Text → S → Result (List DirEntry)
  pub is_not_exist : GoError → Bool

module _ {S : Type 0} (fs : Fs S) (root : Text) where
  unfoldable pub path : Text → Result Text
  path name = elim (validate_name "assets.Store" name) [
    | some e ↦ err e
    | none ↦ ok (fs.join root name)
  ]

  unfoldable pub get : Text → S → Result Bytes
  unfolding path
  get name s = elim (path name) [
    | err e ↦ err e
    | ok p ↦ elim (fs.read_file p s) [
      | ok content ↦ ok content
      | err e ↦
          if fs.is_not_exist e
          then err (
              wrap Kind.not_found "assets.Store.Get"
                (some (errorf "asset %q not found" (Arg.text name ∷ []))))
          else err (wrap Kind.permanent "assets.Store.Get" (some e))
    ]
  ]

  -- The results of the calls of os, one after the other.
  unfoldable pub after_write : Option GoError → S → Option GoError × S
  after_write (some e) s = (some (wrap Kind.permanent "assets.Store.Put" (some e)), s)
  after_write none s = (none, s)

  unfoldable pub after_mkdir : Text → Bytes → ℕ → Option GoError → S → Option GoError × S
  unfolding after_write
  after_mkdir p content now (some e) s = (some (wrap Kind.permanent "assets.Store.Put" (some e)), s)
  after_mkdir p content now none s =
      let (written, s') = fs.write_file p content now s in after_write written s'

  unfoldable pub put : Text → Bytes → ℕ → S → Option GoError × S
  unfolding path after_mkdir
  put name content now s = elim (path name) [
    | err e ↦ (some e, s)
    | ok p ↦ let (made, s') = fs.mkdir_all root s in after_mkdir p content now made s'
  ]

  unfoldable pub after_remove : Text → Option GoError → S → Option GoError × S
  after_remove name none s = (none, s)
  after_remove name (some e) s =
      if fs.is_not_exist e
      then (
        some (
            wrap Kind.not_found "assets.Store.Delete"
              (some (errorf "asset %q not found" (Arg.text name ∷ [])))),
        s,
      )
      else (some (wrap Kind.permanent "assets.Store.Delete" (some e)), s)

  unfoldable pub delete : Text → S → Option GoError × S
  unfolding path after_remove
  delete name s = elim (path name) [
    | err e ↦ (some e, s)
    | ok p ↦ let (removed, s') = fs.remove p s in after_remove name removed s'
  ]

  -- The body of the loop over the entries, `rest` being the rest of it.
  unfoldable pub add_info : Text → Bool → Result (ℕ × ℕ) → Result (List Info) → Result (List Info)
  add_info name true info rest = rest
  add_info name false (err x) rest =
      if fs.is_not_exist x then rest else err (wrap Kind.permanent "assets.Store.List" (some x))
  add_info name false (ok stat) (err x) = err x
  add_info name false (ok stat) (ok is) =
      ok (record { name = name; size = stat.0; mod_time = stat.1 } ∷ is)

  unfoldable pub infos : List DirEntry → Result (List Info)
  unfolding add_info
  infos [] = ok []
  infos (e ∷ es) = add_info e.name e.is_dir e.info (infos es)

  unfoldable pub list : S → Result (List Info)
  unfolding infos
  list s = elim (fs.read_dir root s) [
    | err e ↦
        if fs.is_not_exist e then ok [] else err (wrap Kind.permanent "assets.Store.List" (some e))
    | ok entries ↦ infos entries
  ]

abbrev pub filesystem_store : {S : Type 0} → Fs S → Text → Store S
filesystem_store fs root = record {
  get = get fs root;
  put = put fs root;
  delete = delete fs root;
  list = list fs root;
}

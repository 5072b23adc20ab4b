-- ===== src/Assets/Memory.antt =====
-- internal/assets/memory_store.go: the store over a map. Each method holds the lock, so it is one
-- step on the entries. `data` is a reserved word, so that field is `bytes`.
pub mod Laws
pub mod Roundtrip
use receiptd.Base.{ℕ, Option, none, some, List, [], ◌∷◌, length}
use receiptd.Base.Text.{Text}
use receiptd.Base.Map.{Map, lookup, remove, put as set}
use receiptd.Base.Sort.{sort_by}
use receiptd.Apperr.{GoError, Kind, Arg, errorf, wrap, Result, ok, err}
use receiptd.Assets.{Info, Bytes, Store, validate_name}

pub record Entry : Type 0 where
  pub bytes : Bytes
  pub mod_time : ℕ

abbrev pub Entries : Type 0
Entries = Map Entry

unfoldable pub get : Text → Entries → Result Bytes
get name s = elim (validate_name "assets.Store.Get" name) [
  | some e ↦ err e
  | none ↦ elim (lookup name s) [
    | none ↦ err (
        wrap Kind.not_found "assets.Store.Get"
          (some (errorf "asset %q not found" (Arg.text name ∷ []))))
    | some e ↦ ok e.bytes
  ]
]

unfoldable pub put : Text → Bytes → ℕ → Entries → Option GoError × Entries
put name content now s = elim (validate_name "assets.Store.Put" name) [
  | some e ↦ (some e, s)
  | none ↦ (none, set name (record { bytes = content; mod_time = now }) s)
]

unfoldable pub delete : Text → Entries → Option GoError × Entries
delete name s = elim (validate_name "assets.Store.Delete" name) [
  | some e ↦ (some e, s)
  | none ↦ elim (lookup name s) [
    | none ↦ (
      some (
          wrap Kind.not_found "assets.Store.Delete"
            (some (errorf "asset %q not found" (Arg.text name ∷ [])))),
      s,
    )
    | some e ↦ (none, remove name s)
  ]
]

unfoldable pub infos_of : Entries → List Info
infos_of [] = []
infos_of ((name, e) ∷ s) =
    record { name = name; size = length e.bytes; mod_time = e.mod_time } ∷ infos_of s

unfoldable pub list : Entries → Result (List Info)
unfolding infos_of
list s = ok (sort_by (λ i. i.name) (infos_of s))

abbrev pub memory_store : Store Entries
memory_store = record { get = get; put = put; delete = delete; list = list }

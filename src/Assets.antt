-- ===== src/Assets.antt =====
-- internal/assets/store.go: the Store interface, the names that it takes, and its contract, said of
-- the bytes that are stored under each name.
pub mod Names
pub mod Memory
pub mod Files
mod Runs
use Prim.Native.String.{String}
use receiptd.Base.{
  ℕ, ◌≡◌, ◌≢◌, ◌↔◌, Bool, true, false, ◌||◌, Option, none, some, List, [], ◌∷◌, length,
  if◌then◌else◌,
}
use receiptd.Base.Text.{Text, codes, text_eq}
use receiptd.Base.Utf8.{contains_any}
use receiptd.Base.Sort.{In, IsSortedBy}
use receiptd.Apperr.{GoError, Kind, Arg, errorf, wrap, is_kind, Result, ok, err}
use receiptd.Receipt.Validate.{is_empty}

pub record Info : Type 0 where
  pub name : Text
  pub size : ℕ
  pub mod_time : ℕ

abbrev pub Bytes : Type 0
Bytes = List ℕ

-- The operations on a store whose contents are an `S`. `put` is given the time at which it runs.
pub record Store (S : Type 0) : Type 0 where
  pub get : Text → S → Result Bytes
  pub put : Text → Bytes → ℕ → S → Option GoError × S
  pub delete : Text → S → Option GoError × S
  pub list : S → Result (List Info)

unfoldable pub validate_name : String → Text → Option GoError
validate_name op name =
    if is_empty name
    then some (wrap Kind.validation op (some (errorf "asset name is required" [])))
    else if contains_any name (codes "/\\") || text_eq name (codes ".") || text_eq name (codes "..")
    then some (wrap Kind.validation op (some (errorf "invalid asset name %q" (Arg.text name ∷ []))))
    else none

-- A single segment of a path.
abbrev pub IsName : Text → Type 0
IsName n =
    (is_empty n ≡ false)
    × (contains_any n (codes "/\\") ≡ false)
    × (n ≢ codes ".")
    × (n ≢ codes "..")

abbrev pub View : Type 0
View = Text → Option Bytes

-- The error is one of validation exactly if the name is not one to store under.
abbrev pub Blames : Text → GoError → Type 0
Blames n e = (is_kind e Kind.validation ≡ true) ↔ (IsName n → ⊥)

abbrev pub Updated : View → Text → Option Bytes → View → Type 0
Updated v n d w = (k : Text) → w k ≡ (if text_eq n k then d else v k)

abbrev pub Unchanged : View → View → Type 0
Unchanged v w = (k : Text) → w k ≡ v k

-- The kind of the error of a Get or a Delete: validation exactly for an illegal name, not found
-- exactly for a legal one of a missing asset, and permanent for the rest. `Missing` is what the store
-- knows to have no asset.
abbrev pub Fails : (Text → Type 0) → Text → GoError → Type 0
Fails Missing n e =
    Blames n e
    × ((is_kind e Kind.not_found ≡ true) ↔ (IsName n × Missing n))
    × (IsName n → is_kind e Kind.not_found ≡ false → is_kind e Kind.permanent ≡ true)

abbrev pub Gets : View → (Text → Type 0) → Text → Result Bytes → Type 0
Gets v Missing n (ok d) = IsName n × (v n ≡ some d)
Gets v Missing n (err e) = Fails Missing n e

-- A Put that fails may have harmed the asset that it was to replace, and no other.
abbrev pub Puts : View → Text → Bytes → Option GoError → View → Type 0
Puts v n d none w = IsName n × Updated v n (some d) w
Puts v n d (some e) w =
    Blames n e
    × ((k : Text) → text_eq n k ≡ false → w k ≡ v k)
    × (is_kind e Kind.validation ≡ true → Unchanged v w)
    × (IsName n → is_kind e Kind.permanent ≡ true)

abbrev pub Deletes : View → (Text → Type 0) → Text → Option GoError → View → Type 0
Deletes v Missing n none w = IsName n × Updated v n none w
Deletes v Missing n (some e) w = Fails Missing n e × Unchanged v w

-- Every asset is listed, by name, with its size.
abbrev pub Lists : View → Result (List Info) → Type 0
Lists v (ok infos) =
    IsSortedBy (λ i. i.name) infos
    × ((i : Info) → In i infos → (d : Bytes) × (v i.name ≡ some d) × (i.size ≡ length d))
    × ((n : Text) (d : Bytes) → v n ≡ some d → (i : Info) × In i infos × (i.name ≡ n))
Lists v (err e) = is_kind e Kind.permanent ≡ true

pub record Keeps {S : Type 0} (store : Store S) (view : S → View) (Missing : S → Text → Type 0)
    (IsWell : S → Type 0) : Type 0 where
  pub nothing_held : (n : Text) (s : S) → IsWell s → IsName n → Missing s n → view s n ≡ none
  pub gets : (n : Text) (s : S) → IsWell s → Gets (view s) (Missing s) n (store.get n s)
  pub puts :
      (n : Text) (d : Bytes) (now : ℕ) (s : S)
      → IsWell s
      → Puts (view s) n d (store.put n d now s).0 (view (store.put n d now s).1)
        × IsWell (store.put n d now s).1
  pub deletes :
      (n : Text) (s : S)
      → IsWell s
      → Deletes (view s) (Missing s) n (store.delete n s).0 (view (store.delete n s).1)
        × IsWell (store.delete n s).1
  pub lists : (s : S) → IsWell s → Lists (view s) (store.list s)

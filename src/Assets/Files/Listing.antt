-- ===== src/Assets/Files/Listing.antt =====
-- List of internal/assets/filesystem_store.go, and the store as a whole.
use receiptd.Base.{◌≡◌, true, false, some, List, [], ◌∷◌, length}
use receiptd.Base.Text.{Text, text_ltb}
use receiptd.Base.Sort.{In, IsSortedBy}
use receiptd.Apperr.{Kind, is_kind, Result, ok, err}
use receiptd.Assets.{Info, Bytes, View}
use receiptd.Assets.Files.{DirEntry}

-- No entry of the list comes before the name `x`.
abbrev Bounds : Text → List DirEntry → Type 0
Bounds x [] = Unit
Bounds x (e ∷ es) = (text_ltb e.name x ≡ false) × Bounds x es

abbrev Bounded : Text → List Info → Type 0
Bounded x [] = Unit
Bounded x (i ∷ is) = (text_ltb i.name x ≡ false) × Bounded x is

-- The listed asset of a name.
abbrev Listed : Text → List Info → Type 0
Listed n is = (i : Info) × In i is × (i.name ≡ n)

-- What the loop makes of a part of the directory.
abbrev Listing : View → List DirEntry → Result (List Info) → Type 0
Listing v es (ok is) =
    IsSortedBy (λ i. i.name) is
    × ((x : Text) → Bounds x es → Bounded x is)
    × ((i : Info) → In i is → (d : Bytes) × (v i.name ≡ some d) × (i.size ≡ length d))
    × ((e : DirEntry) → In e es → (d : Bytes) → v e.name ≡ some d → Listed e.name is)
Listing v es (err e) = is_kind e Kind.permanent ≡ true

-- ===== src/Assets/Files/Laws.antt =====
-- Get, Put and Delete of internal/assets/filesystem_store.go keep the contract of the Store interface.
use Prim.Native.String.{String}
use mathlib.Core.Bool.{true≢false}
use receiptd.Base.{
  refl, List, inl, inr, sym, ℕ, ◌≡◌, ◌↔◌, [], ◌∷◌, if◌then◌else◌, ◌∙◌, true, false, Option, none,
  some, List, length, Option-cases, Bool-cases,
}
use receiptd.Base.Text.{Text, text_eq}
use receiptd.Base.Sort.{In, IsSortedBy}
use receiptd.Apperr.{GoError, Kind, Arg, errorf, wrap, is_kind, Result, ok, err, Result-cases}
use receiptd.Apperr.Chain.{is_kind-wrap}
use receiptd.Assets.{
  Puts, Deletes, Bytes, View, IsName, Gets, Updated, Unchanged, Blames, Fails, validate_name,
}
use receiptd.Assets.Names.{Judged, validate_name-Judged, blameless, refused-Fails, not_found-Fails}
use receiptd.Assets.Files.{after_mkdir, after_write, after_remove, DirEntry, Fs, get, put, delete}

-- An error of the operating system, which is none of the program's own.
abbrev pub IsForeign : GoError → Type 0
IsForeign e = (is_kind e Kind.validation ≡ false) × (is_kind e Kind.not_found ≡ false)

module _ {S : Type 0} (fs : Fs S) where
  abbrev pub Reads : Type 0 → Option Bytes → Result Bytes → Type 0
  Reads missing held (ok d) = held ≡ some d
  Reads missing held (err e) = IsForeign e × ((fs.is_not_exist e ≡ true) ↔ missing)

  abbrev pub Makes : View → Option GoError → View → Type 0
  Makes v none w = Unchanged v w
  Makes v (some e) w = IsForeign e × Unchanged v w

  -- os.WriteFile truncates the file before it writes.
  abbrev pub Writes : View → Text → Bytes → Option GoError → View → Type 0
  Writes v n d none w = Updated v n (some d) w
  Writes v n d (some e) w = IsForeign e × ((k : Text) → text_eq n k ≡ false → w k ≡ v k)

  abbrev pub Removes : Type 0 → View → Text → Option GoError → View → Type 0
  Removes missing v n none w = Updated v n none w
  Removes missing v n (some e) w =
      IsForeign e × Unchanged v w × ((fs.is_not_exist e ≡ true) ↔ missing)

  -- What an entry says of the file that it names.
  abbrev pub Names : View → DirEntry → Type 0
  Names v e =
      (e.is_dir ≡ true → v e.name ≡ none)
      × (e.is_dir ≡ false
          → (size time : ℕ) → e.info ≡ ok (size, time)
          → (d : Bytes) × (v e.name ≡ some d) × (size ≡ length d))
      × ((x : GoError) → e.info ≡ err x → fs.is_not_exist x ≡ true → v e.name ≡ none)

  abbrev pub Dir : View → Result (List DirEntry) → Type 0
  Dir v (ok es) =
      IsSortedBy (λ e. e.name) es
      × ((e : DirEntry) → In e es → Names v e)
      × ((n : Text) (d : Bytes) → v n ≡ some d → (e : DirEntry) × In e es × (e.name ≡ n))
  Dir v (err e) = fs.is_not_exist e ≡ true → (n : Text) → v n ≡ none

  -- The documented behaviour of os on a root that holds plain files and directories, `files` being
  -- the contents of the files by their names and `Missing` the names of which the system finds neither
  -- a file nor a directory, for which alone a call fails with fs.ErrNotExist.
  pub record IsFs (root : Text) (files : S → View) (Missing : S → Text → Type 0) : Type 0 where
    pub nothing_held : (n : Text) (s : S) → IsName n → Missing s n → files s n ≡ none
    pub reads :
        (n : Text) (s : S)
        → IsName n
        → Reads (Missing s n) (files s n) (fs.read_file (fs.join root n) s)
    pub makes : (s : S) → Makes (files s) (fs.mkdir_all root s).0 (files (fs.mkdir_all root s).1)
    pub writes :
        (n : Text) (d : Bytes) (now : ℕ) (s : S)
        → IsName n
        → Writes
            (files s)
            n
            d
            (fs.write_file (fs.join root n) d now s).0
            (files (fs.write_file (fs.join root n) d now s).1)
    pub removes :
        (n : Text) (s : S)
        → IsName n
        → Removes
            (Missing s n)
            (files s)
            n
            (fs.remove (fs.join root n) s).0
            (files (fs.remove (fs.join root n) s).1)
    pub lists : (s : S) → Dir (files s) (fs.read_dir root s)

  permanent-Blames :
      (op : String) (n : Text) (e : GoError)
      → IsName n
      → IsForeign e
      → Blames n (wrap Kind.permanent op (some e))
        × (is_kind (wrap Kind.permanent op (some e)) Kind.validation ≡ false)
        × (is_kind (wrap Kind.permanent op (some e)) Kind.permanent ≡ true)
  permanent-Blames op n e h f =
      let v : is_kind (wrap Kind.permanent op (some e)) Kind.validation ≡ false =
        (is_kind-wrap Kind.permanent Kind.validation op e).0 ∙ f.0 in
      (blameless n _ h v, v, (is_kind-wrap Kind.permanent Kind.permanent op e).0)

  permanent-Fails :
      (Missing : Text → Type 0) (op : String) (n : Text) (e : GoError)
      → IsName n
      → IsForeign e
      → ¬ Missing n
      → Fails Missing n (wrap Kind.permanent op (some e))
  permanent-Fails Missing op n e h f m =
      let b = permanent-Blames op n e h f in
      let q : is_kind (wrap Kind.permanent op (some e)) Kind.not_found ≡ false =
        (is_kind-wrap Kind.permanent Kind.not_found op e).0 ∙ f.1 in
      (b.0, (λ t. absurd (true≢false (sym t ∙ q)), λ x. absurd (m x.1)), λ x t. b.2)

  -- The two branches on fs.ErrNotExist.
  not_exist-Fails :
      (Missing : Text → Type 0) (op : String) (n : Text) (e : GoError)
      → IsName n
      → IsForeign e
      → ((fs.is_not_exist e ≡ true) ↔ Missing n)
      → Fails Missing n (
          if fs.is_not_exist e
          then wrap Kind.not_found op (some (errorf "asset %q not found" (Arg.text n ∷ [])))
          else wrap Kind.permanent op (some e))
  not_exist-Fails Missing op n e h f m = elim (Bool-cases (fs.is_not_exist e)) [
    | inl t ↦ rw t (not_found-Fails Missing op n h (m.0 t))
    | inr t ↦ rw t (permanent-Fails Missing op n e h f (λ x. true≢false (sym (m.1 x) ∙ t)))
  ]

  module _ (root : Text) (files : S → View) (Missing : S → Text → Type 0)
      (law : IsFs root files Missing) where
    pub get-Gets : (n : Text) (s : S) → Gets (files s) (Missing s) n (get fs root n s)
    unfolding get
    get-Gets n s = elim (Option-cases (validate_name "assets.Store" n)) [
      | inr (e, p) ↦
          let j : Judged n (some e) = rw p at (validate_name-Judged "assets.Store" n) in
          rw (get, p) (refused-Fails (Missing s) n e j)
      | inl p ↦
          let j : IsName n = rw p at (validate_name-Judged "assets.Store" n) in
          elim (Result-cases (fs.read_file (fs.join root n) s)) [
            | inr (d, q) ↦ rw (get, p, q) (j, rw q at (law.reads n s j))
            | inl (e, q) ↦
                let r : Reads (Missing s n) (files s n) (err e) = rw q at (law.reads n s j) in
                let f = not_exist-Fails (Missing s) "assets.Store.Get" n e j r.0 r.1 in
                elim (Bool-cases (fs.is_not_exist e)) [
                  | inl t ↦ rw (get, p, q, t) (rw t at f)
                  | inr t ↦ rw (get, p, q, t) (rw t at f)
                ]
          ]
    ]

    finish :
        (n : Text) (d : Bytes) (s : S)
        → IsName n
        → (s₁ : S) → Unchanged (files s) (files s₁)
        → (r : Option GoError × S) → Writes (files s₁) n d r.0 (files r.1)
        → Puts (files s) n d (after_write fs root r.0 r.1).0 (files (after_write fs root r.0 r.1).1)
    unfolding after_write
    finish n d s j s₁ same (none, s₂) w = (j, λ k. w k ∙ rw (same k) refl)
    finish n d s j s₁ same (some e, s₂) w =
        let b = permanent-Blames "assets.Store.Put" n e j w.0 in
        (b.0, λ k h. w.1 k h ∙ same k, λ h. absurd (true≢false (sym h ∙ b.1)), λ h. b.2)

    written :
        (n : Text) (d : Bytes) (now : ℕ) (s : S)
        → IsName n
        → (r : Option GoError × S) → Makes (files s) r.0 (files r.1)
        → Puts
            (files s)
            n
            d
            (after_mkdir fs root (fs.join root n) d now r.0 r.1).0
            (files (after_mkdir fs root (fs.join root n) d now r.0 r.1).1)
    unfolding after_mkdir
    written n d now s j (none, s₁) m =
        finish n d s j s₁ m (fs.write_file (fs.join root n) d now s₁) (law.writes n d now s₁ j)
    written n d now s j (some e, s₁) m =
        let b = permanent-Blames "assets.Store.Put" n e j m.0 in
        (b.0, λ k h. m.1 k, λ h. absurd (true≢false (sym h ∙ b.1)), λ h. b.2)

    pub put-Puts :
        (n : Text) (d : Bytes) (now : ℕ) (s : S)
        → Puts (files s) n d (put fs root n d now s).0 (files (put fs root n d now s).1)
    unfolding put
    put-Puts n d now s = elim (Option-cases (validate_name "assets.Store" n)) [
      | inr (e, p) ↦
          let j : Judged n (some e) = rw p at (validate_name-Judged "assets.Store" n) in
          rw (put, p) ((λ v. j.0, λ f. j.1), λ k h. refl, λ h k. refl, λ h. absurd (j.0 h))
      | inl p ↦
          let j : IsName n = rw p at (validate_name-Judged "assets.Store" n) in
          rw (put, p) (written n d now s j (fs.mkdir_all root s) (law.makes s))
    ]

    gone :
        (n : Text) (s : S)
        → IsName n
        → (r : Option GoError × S) → Removes (Missing s n) (files s) n r.0 (files r.1)
        → Deletes
            (files s)
            (Missing s)
            n
            (after_remove fs root n r.0 r.1).0
            (files (after_remove fs root n r.0 r.1).1)
    unfolding after_remove
    gone n s j (none, s₁) m = (j, m)
    gone n s j (some e, s₁) m =
        let f = not_exist-Fails (Missing s) "assets.Store.Delete" n e j m.0 m.2 in
        elim (Bool-cases (fs.is_not_exist e)) [
          | inl t ↦ rw t (rw t at f, m.1)
          | inr t ↦ rw t (rw t at f, m.1)
        ]

    pub delete-Deletes :
        (n : Text) (s : S)
        → Deletes (files s) (Missing s) n (delete fs root n s).0 (files (delete fs root n s).1)
    unfolding delete
    delete-Deletes n s = elim (Option-cases (validate_name "assets.Store" n)) [
      | inr (e, p) ↦
          let j : Judged n (some e) = rw p at (validate_name-Judged "assets.Store" n) in
          rw (delete, p) (refused-Fails (Missing s) n e j, λ k. refl)
      | inl p ↦
          let j : IsName n = rw p at (validate_name-Judged "assets.Store" n) in
          rw (delete, p) (gone n s j (fs.remove (fs.join root n) s) (law.removes n s j))
    ]

-- ===== src/Assets/Memory/Roundtrip.antt =====
-- What is put into the in-memory store of internal/assets/memory_store.go is what a Get answers,
-- until a Delete.
use Prim.Native.String.{String}
use receiptd.Base.{
  ℕ, ◌≡◌, ◌∙◌, inl, inr, refl, none, some, [], ◌∷◌, if◌then◌else◌, Option-cases, Bool-cases,
}
use receiptd.Base.Text.{Text, text_eq, text_eq_iff, text_eq_refl}
use receiptd.Base.Map.{lookup, remove, put as set, lookup-put, lookup-remove}
use receiptd.Apperr.{GoError, Kind, Arg, errorf, wrap, ok, err}
use receiptd.Assets.{Bytes, IsName, validate_name}
use receiptd.Assets.Names.{Judged, validate_name-Judged}
use receiptd.Assets.Memory.{Entry, Entries, get, put, delete}

-- A legal name is let through.
accepted : (op : String) (n : Text) → IsName n → validate_name op n ≡ none
accepted op n h = elim (Option-cases (validate_name op n)) [
  | inl p ↦ p
  | inr (e, p) ↦ let j : Judged n (some e) = rw p at (validate_name-Judged op n) in absurd (j.0 h)
]

abbrev pub not_found : Text → GoError
not_found n =
    wrap Kind.not_found "assets.Store.Get" (some (errorf "asset %q not found" (Arg.text n ∷ [])))

get_of : (m : Text) (s t : Entries) → lookup m s ≡ lookup m t → get m s ≡ get m t
unfolding get
get_of m s t h = elim (Option-cases (validate_name "assets.Store.Get" m)) [
  | inr (e, p) ↦ rw (get, p) refl
  | inl p ↦ rw (get, p, h) refl
]

get-found :
    (n : Text) (s : Entries) (e : Entry) → IsName n → lookup n s ≡ some e → get n s ≡ ok e.bytes
unfolding get
get-found n s e h p = rw (get, accepted "assets.Store.Get" n h, p) refl

get-missing : (n : Text) (s : Entries) → IsName n → lookup n s ≡ none → get n s ≡ err (not_found n)
unfolding get
get-missing n s h p = rw (get, accepted "assets.Store.Get" n h, p) refl

put-stored :
    (n : Text) (d : Bytes) (now : ℕ) (s : Entries)
    → IsName n
    → put n d now s ≡ (none, set n (record { bytes = d; mod_time = now }) s)
unfolding put
put-stored n d now s h = rw (put, accepted "assets.Store.Put" n h) refl

delete-found :
    (n : Text) (s : Entries) (e : Entry)
    → IsName n
    → lookup n s ≡ some e
    → delete n s ≡ (none, remove n s)
unfolding delete
delete-found n s e h p = rw (delete, accepted "assets.Store.Delete" n h, p) refl

abbrev written : Text → Bytes → ℕ → Entries → Entries
written n d now s = set n (record { bytes = d; mod_time = now }) s

lookup-written :
    (n m : Text) (d : Bytes) (now : ℕ) (s : Entries)
    → lookup m (written n d now s)
      ≡ (if text_eq n m then some (record { bytes = d; mod_time = now }) else lookup m s)
lookup-written n m d now s = lookup-put n m (record { bytes = d; mod_time = now }) s

lookup_self :
    (n : Text) (d : Bytes) (now : ℕ) (s : Entries)
    → lookup n (written n d now s) ≡ some (record { bytes = d; mod_time = now })
lookup_self n d now s = rw (lookup-written n n d now s, text_eq_refl n) refl

-- An asset that is stored under a legal name is read back as it was given and leaves the others;
-- deleting it then succeeds, after which it is not found and the others are still as they were.
pub put-get-delete :
    (n : Text) (d : Bytes) (now : ℕ) (s : Entries)
    → IsName n
    → ((put n d now s).0 ≡ none)
      × ((m : Text) → get m (put n d now s).1 ≡ (if text_eq n m then ok d else get m s))
      × ((delete n (put n d now s).1).0 ≡ none)
      × ((m : Text)
          → get m (delete n (put n d now s).1).1
            ≡ (if text_eq n m then err (not_found n) else get m s))
put-get-delete n d now s h =
    rw (put-stored n d now s h, delete-found n (written n d now s) _ h (lookup_self n d now s))
      (refl, read, refl, gone)
  where
    read : (m : Text) → get m (written n d now s) ≡ (if text_eq n m then ok d else get m s)
    read m = elim (Bool-cases (text_eq n m)) [
      | inl p ↦
          rw (p, ← ((text_eq_iff n m).0 p))
            (get-found n (written n d now s) (record { bytes = d; mod_time = now }) h
              (lookup_self n d now s))
      | inr p ↦ rw p (get_of m (written n d now s) s (lookup-written n m d now s ∙ rw p refl))
    ]

    gone :
        (m : Text)
        → get m (remove n (written n d now s))
          ≡ (if text_eq n m then err (not_found n) else get m s)
    gone m = elim (Bool-cases (text_eq n m)) [
      | inl p ↦
          rw (p, ← ((text_eq_iff n m).0 p))
            (get-missing n (remove n (written n d now s)) h
              (lookup-remove n n (written n d now s) ∙ rw (text_eq_refl n) refl))
      | inr p ↦ rw p (
          get_of m (remove n (written n d now s)) s
            (lookup-remove n m (written n d now s) ∙ rw p (lookup-written n m d now s ∙ rw p refl)))
    ]

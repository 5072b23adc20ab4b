-- ===== src/Assets/Memory/Laws.antt =====
-- The in-memory store of internal/assets/memory_store.go keeps the contract of the Store interface.
use receiptd.Base.{
  ℕ, ◌≡◌, ◌⊎◌, List, true, inl, inr, refl, ap, Option, none, some, [], ◌∷◌, length, if◌then◌else◌,
  Option-cases, Bool-cases,
}
use Prim.Native.String.{String}
use mathlib.Core.Path.{subst}
use mathlib.Core.Option.{some-injective}
use receiptd.Apperr.{GoError, Kind, Arg, errorf, wrap, is_kind, ok, err, err-injective}
use receiptd.Apperr.Chain.{is_kind-wrap}
use receiptd.Base.Text.{Text, text_eq, text_eq_iff}
use receiptd.Base.Map.{
  lookup, IsMap, remove, put as set, lookup-put, put-IsMap, lookup-remove, remove-IsMap,
  lookup_head, lookup_tail,
}
use receiptd.Base.Sort.{In, sort_by, In-sort, sort-IsSortedBy}
use receiptd.Assets.{
  Store, Info, Bytes, View, IsName, Gets, Puts, Deletes, Lists, Keeps, validate_name,
}
use receiptd.Assets.Names.{Judged, validate_name-Judged, refused-Fails, not_found-Fails}
use receiptd.Assets.Memory.{Entry, Entries, get, put, delete, infos_of, list, memory_store}

abbrev pub bytes_of : Option Entry → Option Bytes
bytes_of none = none
bytes_of (some e) = some e.bytes

abbrev pub view : Entries → View
view s n = bytes_of (lookup n s)

-- No asset is stored under the name.
abbrev pub IsMissing : Entries → Text → Type 0
IsMissing s n = view s n ≡ none

pub get-Gets : (n : Text) (s : Entries) → Gets (view s) (IsMissing s) n (get n s)
unfolding get
get-Gets n s = elim (Option-cases (validate_name "assets.Store.Get" n)) [
  | inr (e, p) ↦
      let j : Judged n (some e) = rw p at (validate_name-Judged "assets.Store.Get" n) in
      rw (get, p) (refused-Fails (IsMissing s) n e j)
  | inl p ↦
      let j : IsName n = rw p at (validate_name-Judged "assets.Store.Get" n) in
      elim (Option-cases (lookup n s)) [
        | inl q ↦
            rw (get, p, q) (not_found-Fails (IsMissing s) "assets.Store.Get" n j (ap bytes_of q))
        | inr (e, q) ↦ rw (get, p, q) (j, ap bytes_of q)
      ]
]

pub put-Puts :
    (n : Text) (d : Bytes) (now : ℕ) (s : Entries)
    → Puts (view s) n d (put n d now s).0 (view (put n d now s).1)
unfolding put
put-Puts n d now s = elim (Option-cases (validate_name "assets.Store.Put" n)) [
  | inr (e, p) ↦
      let j : Judged n (some e) = rw p at (validate_name-Judged "assets.Store.Put" n) in
      rw (put, p) ((λ v. j.0, λ f. j.1), λ k h. refl, λ h k. refl, λ h. absurd (j.0 h))
  | inl p ↦
      let j : IsName n = rw p at (validate_name-Judged "assets.Store.Put" n) in
      rw (put, p) (j, λ k. written k)
]
  where
    written :
        (k : Text)
        → bytes_of (lookup k (set n (record { bytes = d; mod_time = now }) s))
          ≡ (if text_eq n k then some d else view s k)
    written k = elim (Bool-cases (text_eq n k)) [
      | inl e ↦ rw (lookup-put n k (record { bytes = d; mod_time = now }) s, e) refl
      | inr e ↦ rw (lookup-put n k (record { bytes = d; mod_time = now }) s, e) refl
    ]

pub delete-Deletes :
    (n : Text) (s : Entries) → Deletes (view s) (IsMissing s) n (delete n s).0 (view (delete n s).1)
unfolding delete
delete-Deletes n s = elim (Option-cases (validate_name "assets.Store.Delete" n)) [
  | inr (e, p) ↦
      let j : Judged n (some e) = rw p at (validate_name-Judged "assets.Store.Delete" n) in
      rw (delete, p) (refused-Fails (IsMissing s) n e j, λ k. refl)
  | inl p ↦
      let j : IsName n = rw p at (validate_name-Judged "assets.Store.Delete" n) in
      elim (Option-cases (lookup n s)) [
        | inl q ↦
            rw (delete, p, q)
              (not_found-Fails (IsMissing s) "assets.Store.Delete" n j (ap bytes_of q), λ k. refl)
        | inr (e, q) ↦ rw (delete, p, q) (j, λ k. removed k)
      ]
]
  where
    removed :
        (k : Text) → bytes_of (lookup k (remove n s)) ≡ (if text_eq n k then none else view s k)
    removed k = elim (Bool-cases (text_eq n k)) [
      | inl e ↦ rw (lookup-remove n k s, e) refl
      | inr e ↦ rw (lookup-remove n k s, e) refl
    ]

pub put-IsMap_kept :
    (n : Text) (d : Bytes) (now : ℕ) (s : Entries) → IsMap s → IsMap (put n d now s).1
unfolding put
put-IsMap_kept n d now s h = elim (Option-cases (validate_name "assets.Store.Put" n)) [
  | inr (e, p) ↦ rw (put, p) h
  | inl p ↦ rw (put, p) (put-IsMap n (record { bytes = d; mod_time = now }) s h)
]

pub delete-IsMap_kept : (n : Text) (s : Entries) → IsMap s → IsMap (delete n s).1
unfolding delete
delete-IsMap_kept n s h = elim (Option-cases (validate_name "assets.Store.Delete" n)) [
  | inr (e, p) ↦ rw (delete, p) h
  | inl p ↦ elim (Option-cases (lookup n s)) [
    | inl q ↦ rw (delete, p, q) h
    | inr (e, q) ↦ rw (delete, p, q) (remove-IsMap n s h)
  ]
]

-- The entry of an asset that is listed.
abbrev Shown : Info → Entries → Type 0
Shown i s = (e : Entry) × (lookup i.name s ≡ some e) × (i.size ≡ length e.bytes)

infos-Shown : (s : Entries) → IsMap s → (i : Info) → In i (infos_of s) → Shown i s
unfolding infos_of
infos-Shown [] u i h = absurd h
infos-Shown ((n, e) ∷ s) u i (inl p) =
    (e, rw (ap (λ x. x.name) p) (lookup_head n e s), ap (λ x. x.size) p)
infos-Shown ((n, e) ∷ s) u i (inr h) =
    let r : Shown i s = infos-Shown s u.1 i h in (r.0, lookup_tail n i.name e r.0 s u.0 r.1, r.2)

held-infos :
    (s : Entries) (n : Text) (e : Entry)
    → lookup n s ≡ some e
    → (i : Info) × In i (infos_of s) × (i.name ≡ n)
unfolding infos_of lookup
held-infos [] n e h = cc
held-infos ((k, x) ∷ s) n e h = elim (Bool-cases (text_eq k n)) [
  | inl p ↦ (
    record { name = k; size = length x.bytes; mod_time = x.mod_time },
    inl refl,
    (text_eq_iff k n).0 p,
  )
  | inr p ↦
      let r : (i : Info) × In i (infos_of s) × (i.name ≡ n) = held-infos s n e (rw p at h) in
      (r.0, inr r.1, r.2)
]

entry_of : (o : Option Entry) (d : Bytes) → bytes_of o ≡ some d → (e : Entry) × (o ≡ some e)
entry_of none d h = cc
entry_of (some e) d h = (e, refl)

pub list-Lists : (s : Entries) → IsMap s → Lists (view s) (list s)
unfolding list
list-Lists s u = (
  sort-IsSortedBy (λ i. i.name) (infos_of s),
  λ i h.
      let r : Shown i s = infos-Shown s u i ((In-sort (λ x. x.name) i (infos_of s)).0 h) in
      (r.0.bytes, ap bytes_of r.1, r.2),
  λ n d h.
      let q : (e : Entry) × (lookup n s ≡ some e) = entry_of (lookup n s) d h in
      let r : (i : Info) × In i (infos_of s) × (i.name ≡ n) = held-infos s n q.0 q.1 in
      (r.0, (In-sort (λ x. x.name) r.0 (infos_of s)).1 r.1, r.2),
)

-- Nothing but its name makes an operation of the store fail, and nothing but a missing asset.
pub record NeverFails {S : Type 0} (store : Store S) (view : S → View) : Type 0 where
  pub gets : (n : Text) (d : Bytes) (s : S) → IsName n → view s n ≡ some d → store.get n s ≡ ok d
  pub puts : (n : Text) (d : Bytes) (now : ℕ) (s : S) → IsName n → (store.put n d now s).0 ≡ none
  pub deletes :
      (n : Text) (d : Bytes) (s : S) → IsName n → view s n ≡ some d → (store.delete n s).0 ≡ none
  pub misses :
      (n : Text) (e : GoError) (s : S)
      → IsName n
      → (store.get n s ≡ err e) ⊎ ((store.delete n s).0 ≡ some e)
      → is_kind e Kind.not_found ≡ true
  pub lists : (s : S) → (infos : List Info) × (store.list s ≡ ok infos)

legal : (op : String) (n : Text) → IsName n → validate_name op n ≡ none
legal op n h = elim (Option-cases (validate_name op n)) [
  | inl p ↦ p
  | inr (e, p) ↦ let j : Judged n (some e) = rw p at (validate_name-Judged op n) in absurd (j.0 h)
]

missing_kind :
    (op : String) (n : Text)
    → is_kind
        (wrap Kind.not_found op (some (errorf "asset %q not found" (Arg.text n ∷ []))))
        Kind.not_found
      ≡ true
missing_kind op n =
    (is_kind-wrap Kind.not_found Kind.not_found op
      (errorf "asset %q not found" (Arg.text n ∷ []))).0

memory_store-NeverFails : NeverFails memory_store view
unfolding get put delete list
memory_store-NeverFails = record {
  gets = λ n d s h p.
      let (e, q) = entry_of (lookup n s) d p in
      rw (get, legal "assets.Store.Get" n h, q) (ap ok (some-injective _ _ (rw q at p)));
  puts = λ n d now s h. rw (put, legal "assets.Store.Put" n h) refl;
  deletes = λ n d s h p.
      let (e, q) = entry_of (lookup n s) d p in
      rw (delete, legal "assets.Store.Delete" n h, q) refl;
  misses = λ n e s h p. elim p [
    | inl q ↦ missed n e s h (lookup n s) refl q
    | inr q ↦ kept n e s h (lookup n s) refl q
  ];
  lists = λ s. (sort_by (λ i. i.name) (infos_of s), refl);
}
  where
    missed :
        (n : Text) (e : GoError) (s : Entries)
        → IsName n
        → (o : Option Entry) → lookup n s ≡ o
        → get n s ≡ err e
        → is_kind e Kind.not_found ≡ true
    missed n e s h none p q =
        subst (λ x. is_kind x Kind.not_found ≡ true)
          (err-injective (rw (get, legal "assets.Store.Get" n h, p) at q))
          (missing_kind "assets.Store.Get" n)
    missed n e s h (some x) p q = cc (rw (get, legal "assets.Store.Get" n h, p) at q)

    kept :
        (n : Text) (e : GoError) (s : Entries)
        → IsName n
        → (o : Option Entry) → lookup n s ≡ o
        → (delete n s).0 ≡ some e
        → is_kind e Kind.not_found ≡ true
    kept n e s h none p q =
        subst (λ x. is_kind x Kind.not_found ≡ true)
          (some-injective _ _ (rw (delete, legal "assets.Store.Delete" n h, p) at q))
          (missing_kind "assets.Store.Delete" n)
    kept n e s h (some x) p q = cc (rw (delete, legal "assets.Store.Delete" n h, p) at q)

-- The in-memory store keeps the contract of an asset store, and fails for a name only: an illegal
-- name is refused as such; for a legal one a Get answers what is stored and a Delete removes it, or
-- they say that it is not found, exactly if nothing is stored; a Put always succeeds and changes the
-- one asset; a List always succeeds, is sorted and has every asset with its size; and no name stands
-- twice.
pub memory_store-Keeps : Keeps memory_store view IsMissing IsMap × NeverFails memory_store view
memory_store-Keeps = (
  record {
    nothing_held = λ n s u h m. m;
    gets = λ n s u. get-Gets n s;
    puts = λ n d now s u. (put-Puts n d now s, put-IsMap_kept n d now s u);
    deletes = λ n s u. (delete-Deletes n s, delete-IsMap_kept n s u);
    lists = list-Lists;
  },
  memory_store-NeverFails,
)

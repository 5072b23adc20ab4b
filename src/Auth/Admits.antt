-- ===== src/Auth/Admits.antt =====
-- Who is let through by Bearer and Basic of internal/auth/middleware.go.
use receiptd.Base.{
  ℕ, ◌≡◌, ◌⊎◌, ◌∙◌, ◌++◌, inl, inr, refl, sym, ap, Bool, true, false, Option, none, some, [], ◌∷◌,
  ◌==◌, Option-cases, Bool-cases, arith,
}
use mathlib.Core.Path.{subst}
use mathlib.Core.Option.{some-injective}
use receiptd.Base.Text.{Text, codes, text_eq_iff, text_eq_refl}
use receiptd.Receipt.Validate.{is_empty}
use receiptd.Auth.{Answer, served, unauthorized, cut, tokens_equal, bearer_credential, bearer}

-- No byte of the text is `sep`.
abbrev pub Without : ℕ → Text → Type 0
Without sep [] = Unit
Without sep (b ∷ t) = ((b == sep) ≡ false) × Without sep t

abbrev Cuts : ℕ → Text → Option (Text × Text) → Type 0
Cuts sep t none = Without sep t
Cuts sep t (some p) = (t ≡ p.0 ++ (sep ∷ p.1)) × Without sep p.0

cut-Cuts : (sep : ℕ) (t : Text) → Cuts sep t (cut sep t)
unfolding cut
cut-Cuts sep [] = tt
cut-Cuts sep (b ∷ t) = elim (Bool-cases (b == sep)) [
  | inl p ↦ rw (cut, p) (first p, tt)
  | inr p ↦ rw (cut, p) (later p (cut sep t) (cut-Cuts sep t))
]
  where
    first : (b == sep) ≡ true → (b ∷ t) ≡ (sep ∷ t)
    first p = ground (arith)

    later :
        (b == sep) ≡ false
        → (r : Option (Text × Text)) → Cuts sep t r
        → Cuts sep
            (b ∷ t)
            (elim r [ none ↦ none | some (before, after) ↦ some (b ∷ before, after) ])
    later p none h = (p, h)
    later p (some r) h = (ap (λ x. b ∷ x) h.0, (p, h.1))

-- Only an exact match of a token that is not empty.
tokens_equal_lem : (s e : Text) → (tokens_equal s e ≡ true) → (is_empty e ≡ false) × (s ≡ e)
unfolding tokens_equal
tokens_equal_lem s e h = elim (Bool-cases (is_empty e)) [
  | inl p ↦ cc (rw p at h)
  | inr p ↦ (p, (text_eq_iff s e).0 (rw p at h))
]

self : (n : ℕ) → (n == n) ≡ true
self n = ground arith

cut-append : (sep : ℕ) (s c : Text) → Without sep s → cut sep (s ++ (sep ∷ c)) ≡ some (s, c)
unfolding cut
cut-append sep [] c h = rw (cut, self sep) refl
cut-append sep (b ∷ s) c h = rw (cut, h.0, cut-append sep s c h.1) refl

module _ (equal_fold : Text → Text → Bool) where
  -- `Bearer`, in any case, one space, and the token, which is not empty.
  abbrev pub Presents : Text → Text → Type 0
  Presents token authorization =
      (is_empty token ≡ false)
      × (scheme : Text) × (authorization ≡ scheme ++ (32 ∷ token))
      × Without 32 scheme
      × (equal_fold scheme (codes "Bearer") ≡ true)

  abbrev pub Judges {ℓ} : {A : Type ℓ} → Text → Text → A → Answer A → Type ℓ
  Judges token authorization next a =
      ((a ≡ served next) × Presents token authorization)
      ⊎ ((a ≡ unauthorized "Bearer") × (Presents token authorization → ⊥))

  abbrev Credential : Text → Text → Type 0
  Credential authorization c =
      (scheme : Text) × (authorization ≡ scheme ++ (32 ∷ c))
      × Without 32 scheme
      × (equal_fold scheme (codes "Bearer") ≡ true)

  bearer_credential-Credential :
      (authorization c : Text)
      → bearer_credential equal_fold authorization ≡ some c
      → Credential authorization c
  unfolding bearer_credential
  bearer_credential-Credential authorization c h =
      split (cut 32 authorization) refl (cut-Cuts 32 authorization)
    where
      split :
          (r : Option (Text × Text))
          → cut 32 authorization ≡ r
          → Cuts 32 authorization r
          → Credential authorization c
      split none p k = cc (rw (bearer_credential, p) at h)
      split (some (scheme, d)) p k = elim (Bool-cases (equal_fold scheme (codes "Bearer"))) [
        | inr q ↦ cc (rw (bearer_credential, p, q) at h)
        | inl q ↦
            let e : d ≡ c = some-injective _ _ (rw (bearer_credential, p, q) at h) in
            (scheme, k.0 ∙ ap (λ x. scheme ++ (32 ∷ x)) e, k.1, q)
      ]

  Credential-bearer_credential :
      (authorization c : Text)
      → Credential authorization c
      → bearer_credential equal_fold authorization ≡ some c
  unfolding bearer_credential
  Credential-bearer_credential authorization c h =
      rw (bearer_credential, h.1, cut-append 32 h.0 c h.2, h.3) refl

  -- Bearer lets a request through to what it protects exactly if its header has the scheme, one
  -- space and the token, and the token is not empty; every other request gets a 401 with the
  -- challenge.
  pub bearer-Judges {ℓ} :
      {A : Type ℓ} (token authorization : Text) (next : A)
      → Judges token authorization next (bearer equal_fold token authorization next)
  unfolding bearer tokens_equal
  bearer-Judges token authorization next =
      elim (Option-cases (bearer_credential equal_fold authorization)) [
        | inl p ↦ inr (
          rw (bearer, p) refl,
          λ h. cc (Credential-bearer_credential authorization token (h.1, h.2, h.3, h.4), p),
        )
        | inr (c, p) ↦ elim (Bool-cases (tokens_equal c token)) [
          | inl q ↦
              let t : (is_empty token ≡ false) × (c ≡ token) = tokens_equal_lem c token q in
              let k : Credential authorization token =
                subst (λ x. Credential authorization x) t.1
                  (bearer_credential-Credential authorization c p) in
              inl ((rw (bearer, p, q) refl), (t.0, k.0, k.1, k.2, k.3))
          | inr q ↦ inr (rw (bearer, p, q) refl, λ h. refused c p q h)
        ]
      ]
    where
      refused :
          (c : Text)
          → bearer_credential equal_fold authorization ≡ some c
          → tokens_equal c token ≡ false
          → Presents token authorization
          → ⊥
      refused c p q h =
          let e : c ≡ token =
            some-injective _ _
              (sym p ∙ Credential-bearer_credential authorization token (h.1, h.2, h.3, h.4)) in
          let q' : tokens_equal token token ≡ false =
            subst (λ x. tokens_equal x token ≡ false) e q in
          let t : tokens_equal token token ≡ true =
            rw (tokens_equal, h.0, text_eq_refl token) refl in
          cc (q', t)

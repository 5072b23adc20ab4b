-- ===== src/Render/Escpos/Errors.antt =====
-- The errors of Encode of internal/render/escpos/encode.go.
use receiptd.Base.{
  ℕ, ◌+◌, ◌-◌, ◌*◌, ◌/◌, ◌≡◌, ◌++◌, inl, inr, true, not, ◌&&◌, ◌||◌, Option, none, some, List, [],
  ◌∷◌, ◌==◌, Bool-cases, length,
}
use mathlib.Core.Path.{subst}
use receiptd.Base.Text.{Text}
use receiptd.Apperr.{GoError, Kind, Result, ok, err, is_kind}
use receiptd.Apperr.Chain.{is_kind-wrap}
use receiptd.Receipt.{Element, feed, cut}
use receiptd.Receipt.Validate.{is_any}
use receiptd.Render.{Canvas, Control, Profile}
use receiptd.Render.Escpos.{
  permanent_error, cut_command, control_command, ends_with_explicit_cut, band_height, raster_bands,
  interleave, automatic_cut, encode,
}

-- An error, if it is one, is permanent.
abbrev IsPermanent : {A : Type 0} → Result A → Type 0
IsPermanent (ok a) = Unit
IsPermanent (err e) = is_kind e Kind.permanent ≡ true

abbrev ArePermanent : {A : Type 0} → Option (Result A) → Type 0
ArePermanent none = Unit
ArePermanent (some r) = IsPermanent r

permanent : (e : GoError) → is_kind (permanent_error e) Kind.permanent ≡ true
permanent e = (is_kind-wrap Kind.permanent Kind.permanent "escpos.Encode" e).0

cut_command-IsPermanent : (mode : Text) → IsPermanent (cut_command mode)
unfolding cut_command
cut_command-IsPermanent mode = elim (Bool-cases (is_any ("full" ∷ []) mode)) [
  | inl p ↦ rw p tt
  | inr p ↦ elim (Bool-cases (is_any ("partial" ∷ []) mode)) [
    | inl q ↦ rw (p, q) tt
    | inr q ↦ rw (p, q) (permanent _)
  ]
]

control_command-IsPermanent :
    (e : Element) (profile : Profile) → IsPermanent (control_command e profile)
unfolding control_command
control_command-IsPermanent (feed lines) profile = tt
control_command-IsPermanent (cut mode) profile = elim (Bool-cases profile.supports_cut) [
  | inl p ↦ rw p (cut_command-IsPermanent _)
  | inr p ↦ rw p tt
]
control_command-IsPermanent e profile = permanent _

automatic_cut-IsPermanent :
    (profile : Profile) (controls : List Control) → IsPermanent (automatic_cut profile controls)
unfolding automatic_cut
automatic_cut-IsPermanent profile controls =
    elim (Bool-cases (profile.supports_cut && not (ends_with_explicit_cut controls))) [
      | inr p ↦ rw p tt
      | inl p ↦ rw p (go (cut_command profile.default_cut) (cut_command-IsPermanent _))
    ]
  where
    go :
        (r : Result (List ℕ))
        → IsPermanent r
        → IsPermanent (elim r as (λ x. Result (List ℕ)) [
          | err e ↦ err e
          | ok bytes ↦ ok (27 ∷ 100 ∷ 4 ∷ bytes)
        ])
    go (ok bytes) h = tt
    go (err e) h = h

module _ (bits : List ℕ) (w band height : ℕ) (profile : Profile) where
  interleave-ArePermanent :
      (at : ℕ) (cs : List Control) → ArePermanent (interleave bits w band profile height at cs)
  unfolding interleave
  interleave-ArePermanent at [] = last (raster_bands (height - at) bits w band at height)
    where
      last :
          (o : Option (List ℕ))
          → ArePermanent (elim o as (λ x. Option (Result (List ℕ))) [
            | none ↦ none
            | some dots ↦ some (ok dots)
          ])
      last none = tt
      last (some dots) = tt
  interleave-ArePermanent at (c ∷ cs) =
      step (raster_bands (c.y - at) bits w band at c.y) (control_command c.element profile)
        (interleave bits w band profile height c.y cs)
        (control_command-IsPermanent c.element profile) (interleave-ArePermanent c.y cs)
    where
      step :
          (o : Option (List ℕ)) (r : Result (List ℕ)) (rest : Option (Result (List ℕ)))
          → IsPermanent r
          → ArePermanent rest
          → ArePermanent (elim o as (λ x. Option (Result (List ℕ))) [
            | none ↦ none
            | some dots ↦ elim r [
              | err e ↦ some (err e)
              | ok command ↦ elim rest [
                | none ↦ none
                | some (err e) ↦ some (err e)
                | some (ok more) ↦ some (ok (dots ++ (command ++ more)))
              ]
            ]
          ])
      step none r rest h k = tt
      step (some dots) (err e) rest h k = h
      step (some dots) (ok command) none h k = tt
      step (some dots) (ok command) (some (err e)) h k = k
      step (some dots) (ok command) (some (ok more)) h k = tt

encode-ArePermanent : (c : Canvas) (profile : Profile) → ArePermanent (encode c profile)
unfolding encode
encode-ArePermanent c profile = elim (Bool-cases (c.width == 0 || c.height == 0)) [
  | inl p ↦ rw p (permanent _)
  | inr p ↦ elim (Bool-cases (length c.bits == (c.width + 7) / 8 * c.height)) [
    | inr q ↦ rw (p, q) (permanent _)
    | inl q ↦
        rw (p, q)
          (go (automatic_cut profile c.controls) _ (automatic_cut-IsPermanent profile c.controls) (
            interleave-ArePermanent c.bits ((c.width + 7) / 8)
              (band_height c.height profile.max_image_height_dots) c.height profile 0 c.controls))
  ]
]
  where
    go :
        (r : Result (List ℕ)) (body : Option (Result (List ℕ)))
        → IsPermanent r
        → ArePermanent body
        → ArePermanent (elim r as (λ x. Option (Result (List ℕ))) [
          | err e ↦ some (err e)
          | ok trailer ↦ elim body [
            | none ↦ none
            | some (err e) ↦ some (err e)
            | some (ok rows) ↦ some (ok (27 ∷ 64 ∷ (rows ++ trailer)))
          ]
        ])
    go (err e) body h k = h
    go (ok trailer) none h k = tt
    go (ok trailer) (some (err e)) h k = k
    go (ok trailer) (some (ok rows)) h k = tt

-- Every error that `encode` returns is of the kind `permanent`.
pub is_kind-encode :
    (c : Canvas) (profile : Profile) (e : GoError)
    → encode c profile ≡ some (err e)
    → is_kind e Kind.permanent ≡ true
is_kind-encode c profile e h = subst ArePermanent h (encode-ArePermanent c profile)

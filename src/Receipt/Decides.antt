-- ===== src/Receipt/Decides.antt =====
-- How the checks of the Validate methods in internal/receipt decide propositions.
use Prim.Native.String.{String}
use mathlib.Core.Bool.{false≢true}
use receiptd.Base.{
  ℕ, ◌≡◌, ◌≢◌, ◌↔◌, ◌⊎◌, inl, inr, refl, Bool, true, false, not, ◌||◌, Option, none, List, [], ◌∷◌,
  ◌++◌, arith, ltb, ◌==◌, ==_iff, if◌then◌else◌, length,
}
use receiptd.Base.Int.{ℤ, pos, ltb_ℤ, ◌≤ℤ◌}
use receiptd.Base.Text.{Text, codes, text_eq, text_eq_iff}
use receiptd.Apperr.{GoError, join_all, Result, ok, err}
use receiptd.Receipt.Validate.{failing, is_any, is_empty, require}

-- The text is one of the words.
abbrev pub OneOf : List String → Text → Type 0
OneOf [] t = ⊥
OneOf (s ∷ ss) t = (t ≡ codes s) ⊎ OneOf ss t

abbrev pub InRange : ℕ → ℕ → ℤ → Type 0
InRange lo hi z = (pos lo ≤ℤ z) × (z ≤ℤ pos hi)

-- `c` decides `P`.
abbrev pub Decides : Bool → Type 0 → Type 0
Decides c P = (c ≡ true) ↔ P

abbrev pub Passes : Option GoError → Type 0 → Type 0
Passes e P = (e ≡ none) ↔ P

pub or_decides : (a b : Bool) {P Q : Type 0} → Decides a P → Decides b Q → Decides (a || b) (P ⊎ Q)
or_decides true b p q = (λ h. inl (p.0 refl), λ h. refl)
or_decides false b p q =
    (λ h. inr (q.0 h), λ s. elim s [ inl x ↦ absurd (false≢true (p.1 x)) | inr y ↦ q.1 y ])

pub one_of : (ss : List String) (t : Text) → Decides (is_any ss t) (OneOf ss t)
one_of [] t = (λ h. cc, λ h. absurd h)
one_of (s ∷ ss) t =
    or_decides (text_eq t (codes s)) (is_any ss t) (text_eq_iff t (codes s)) (one_of ss t)

pub not_empty : (t : Text) → Decides (not (is_empty t)) (t ≢ [])
not_empty [] = (λ h. cc, λ h. absurd (h refl))
not_empty (b ∷ t) = (λ h e. cc, λ h. refl)

pub not_negative : (z : ℤ) → Decides (not (ltb_ℤ z (pos 0))) (pos 0 ≤ℤ z)
not_negative z = (λ h. ground arith, λ h. ground arith)

pub at_most : (n : ℕ) (z : ℤ) → Decides (not (ltb_ℤ (pos n) z)) (z ≤ℤ pos n)
at_most n z = (λ h. ground arith, λ h. ground arith)

pub not_decides : (b : Bool) {P : Type 0} → Decides b P → Decides (not b) (¬ P)
not_decides true p = (λ h. cc, λ n. absurd (n (p.0 refl)))
not_decides false p = (λ h x. false≢true (p.1 x), λ n. refl)

pub require_passes :
    (c : Bool) (e : GoError) (rest : Option GoError) {P Q : Type 0}
    → Decides c P
    → Passes rest Q
    → Passes (require c e rest) (P × Q)
require_passes true e rest p q = (λ h. (p.0 refl, q.0 h), λ h. q.1 h.1)
require_passes false e rest p q = (λ h. cc, λ h. absurd (false≢true (p.1 h.0)))

pub last_passes : (c : Bool) (e : GoError) {P : Type 0} → Decides c P → Passes (require c e none) P
last_passes true e p = (λ h. p.0 refl, λ h. refl)
last_passes false e p = (λ h. cc, λ h. absurd (false≢true (p.1 h)))

abbrev pub Reports : List GoError → Type 0 → Type 0
Reports es P = (es ≡ []) ↔ P

pub is_nonempty : {A : Type 0} (xs : List A) → Decides (ltb 0 (length xs)) (xs ≢ [])
is_nonempty [] = (λ h. cc, λ h. absurd (h refl))
is_nonempty (x ∷ xs) = (λ h e. cc, λ h. ground arith)

pub not_reported :
    (b : Bool) (e : GoError) {P : Type 0} → Decides (not b) P → Reports (if b then e ∷ [] else []) P
not_reported true e p = (λ h. cc, λ h. absurd (false≢true (p.1 h)))
not_reported false e p = (λ h. p.0 refl, λ h. refl)

-- A ladder of two reports.
pub neither_reported :
    (b c : Bool) (e f : GoError) {P Q : Type 0}
    → Decides (not b) P
    → Decides (not c) Q
    → Reports (if b then e ∷ [] else if c then f ∷ [] else []) (P × Q)
neither_reported true c e f p q = (λ h. cc, λ h. absurd (false≢true (p.1 h.0)))
neither_reported false true e f p q = (λ h. cc, λ h. absurd (false≢true (q.1 h.1)))
neither_reported false false e f p q = (λ h. (p.0 refl, q.0 refl), λ h. refl)

pub append_reports :
    (xs ys : List GoError) {P Q : Type 0} → Reports xs P → Reports ys Q → Reports (xs ++ ys) (P × Q)
append_reports [] ys p q = (λ h. (p.0 refl, q.0 h), λ h. q.1 h.1)
append_reports (x ∷ xs) ys p q = (λ h. cc, λ h. cc (p.1 h.0))

pub join_all_passes : (es : List GoError) {P : Type 0} → Reports es P → Passes (join_all es) P
join_all_passes [] p = (λ h. p.0 refl, λ h. refl)
join_all_passes (e ∷ es) p = (λ h. cc, λ h. cc (p.1 h))

abbrev pub IsOk {ℓ} : {A : Type ℓ} → Result A → Type 0
IsOk (ok a) = Unit
IsOk (err e) = ⊥

pub failing_passes {ℓ} :
    {A : Type ℓ} (r : Result A) (wrapped : GoError → GoError) → Passes (failing r wrapped) (IsOk r)
failing_passes (ok a) wrapped = (λ h. tt, λ h. refl)
failing_passes (err e) wrapped = (λ h. cc, λ h. absurd h)

pub equal_numbers : (a b : ℕ) → Decides (a == b) (a ≡ b)
equal_numbers a b = ==_iff a b

pub is_true : (b : Bool) → Decides b (b ≡ true)
is_true b = (λ h. h, λ h. h)

pub not_not : (b : Bool) {P : Type 0} → Decides b P → Decides (not (not b)) P
not_not true p = p
not_not false p = p

pub no_error : Passes none (Unit {0})
no_error = (λ h. tt, λ h. refl)

pub no_report : Reports [] (Unit {0})
no_report = (λ h. tt, λ h. refl)

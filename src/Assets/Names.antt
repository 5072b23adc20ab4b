-- ===== src/Assets/Names.antt =====
-- validateName of internal/assets/store.go.
use Prim.Native.String.{String}
use mathlib.Core.Bool.{true≢false}
use receiptd.Base.{
  sym, ◌∙◌, [], ◌∷◌, ◌≡◌, inl, inr, true, false, Option, none, some, List, Bool-cases,
}
use receiptd.Base.Text.{Text, codes, text_eq, text_eq_iff}
use receiptd.Base.Utf8.{contains_any}
use receiptd.Apperr.{GoError, Kind, Arg, errorf, wrap, is_kind}
use receiptd.Apperr.Chain.{is_kind-wrap}
use receiptd.Receipt.Validate.{is_empty}
use receiptd.Assets.{validate_name, IsName, Blames, Fails}

abbrev pub Judged : Text → Option GoError → Type 0
Judged n none = IsName n
Judged n (some e) =
    (IsName n → ⊥) × (is_kind e Kind.validation ≡ true) × (is_kind e Kind.not_found ≡ false)

refused :
    (op f : String) (args : List Arg) (n : Text)
    → (IsName n → ⊥)
    → Judged n (some (wrap Kind.validation op (some (errorf f args))))
unfolding is_kind
refused op f args n h = (
  h,
  (is_kind-wrap Kind.validation Kind.validation op (errorf f args)).0,
  (is_kind-wrap Kind.validation Kind.not_found op (errorf f args)).0,
)

pub validate_name-Judged : (op : String) (n : Text) → Judged n (validate_name op n)
unfolding validate_name
validate_name-Judged op n = elim (Bool-cases (is_empty n)) [
  | inl p ↦ rw p (refused op _ _ n (λ h. cc (h.0, p)))
  | inr p ↦ elim (Bool-cases (contains_any n (codes "/\\"))) [
    | inl q ↦ rw (p, q) (refused op _ _ n (λ h. cc (h.1, q)))
    | inr q ↦ elim (Bool-cases (text_eq n (codes "."))) [
      | inl r ↦ rw (p, q, r) (refused op _ _ n (λ h. h.2 ((text_eq_iff n (codes ".")).0 r)))
      | inr r ↦ elim (Bool-cases (text_eq n (codes ".."))) [
        | inl t ↦ rw (p, q, r, t) (refused op _ _ n (λ h. h.3 ((text_eq_iff n (codes "..")).0 t)))
        | inr t ↦
            rw (p, q, r, t)
              (
                p,
                q,
                λ e. cc ((text_eq_iff n (codes ".")).1 e, r),
                λ e. cc ((text_eq_iff n (codes "..")).1 e, t),
              )
      ]
    ]
  ]
]

-- A name that is one to store under is not to blame for an error of another kind.
pub blameless : (n : Text) (e : GoError) → IsName n → is_kind e Kind.validation ≡ false → Blames n e
blameless n e h k = (λ v. cc (v, k), λ f. absurd (f h))

pub not_found-Blames :
    (op : String) (n : Text)
    → IsName n
    → Blames n (wrap Kind.not_found op (some (errorf "asset %q not found" (Arg.text n ∷ []))))
unfolding is_kind
not_found-Blames op n h =
    blameless n (wrap Kind.not_found op (some (errorf "asset %q not found" (Arg.text n ∷ [])))) h
      (is_kind-wrap Kind.not_found Kind.validation op
        (errorf "asset %q not found" (Arg.text n ∷ []))).0

-- An error of an illegal name, whatever is missing.
pub refused-Fails :
    (Missing : Text → Type 0) (n : Text) (e : GoError) → Judged n (some e) → Fails Missing n e
refused-Fails Missing n e j = (
  (λ v. j.0, λ f. j.1),
  (λ q. absurd (true≢false (sym q ∙ j.2)), λ h. absurd (j.0 h.0)),
  λ h. absurd (j.0 h),
)

pub not_found-Fails :
    (Missing : Text → Type 0) (op : String) (n : Text)
    → IsName n
    → Missing n
    → Fails Missing n
        (wrap Kind.not_found op (some (errorf "asset %q not found" (Arg.text n ∷ []))))
not_found-Fails Missing op n j m =
    let t : is_kind (wrap Kind.not_found op (some (errorf "asset %q not found" (Arg.text n ∷ []))))
          Kind.not_found
        ≡ true =
      (is_kind-wrap Kind.not_found Kind.not_found op
        (errorf "asset %q not found" (Arg.text n ∷ []))).0 in
    (not_found-Blames op n j, (λ q. (j, m), λ h. t), λ h q. absurd (true≢false (sym t ∙ q)))

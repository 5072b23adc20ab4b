-- ===== src/Apperr.antt =====
-- internal/apperr/error.go: kinds of failure, the wrapped error, and the search of its chain.
-- A message is kept as its format and its arguments; fmt renders it, and is a parameter where a
-- text is needed.
pub mod Chain
mod Runs
use Prim.Native.String.{String}
use receiptd.Base.{
  ℕ, zero, suc, ◌+◌, ◌++◌, ◌≡◌, ◌⊎◌, inl, inr, refl, ap, Bool, true, false, Option, none, some,
  List, [], ◌∷◌, ◌==◌, if◌then◌else◌,
}
use receiptd.Base.Int.{ℤ}
use receiptd.Base.Text.{Text, codes}

-- The kinds, in the order of the `iota` constants, and the values of the int that come after them.
pub data Kind : Type 0 where
  unknown validation not_found transient permanent unauthorized : Kind
  other : ℕ → Kind

abbrev kind_index : Kind → ℕ
kind_index unknown = 0
kind_index validation = 1
kind_index not_found = 2
kind_index transient = 3
kind_index permanent = 4
kind_index unauthorized = 5
kind_index (other n) = n + 6

-- `==` on kinds.
abbrev pub kind_eq : Kind → Kind → Bool
kind_eq a b = kind_index a == kind_index b

-- An argument of fmt.Errorf.
pub data Arg : Type 0 where
  text : Text → Arg
  num : ℕ → Arg
  int : ℤ → Arg

-- Kind.String; `sprintf` is that of fmt.
unfoldable pub kind_string : (String → List Arg → Text) → Kind → Text
kind_string sprintf unknown = codes "unknown"
kind_string sprintf validation = codes "validation"
kind_string sprintf not_found = codes "not found"
kind_string sprintf transient = codes "transient"
kind_string sprintf permanent = codes "permanent"
kind_string sprintf unauthorized = codes "unauthorized"
kind_string sprintf (other n) = sprintf "apperr.Kind(%d)" (num (n + 6) ∷ [])

-- Go's `error` values: a leaf (errors.New, fmt.Errorf), fmt.Errorf with %w, errors.Join, and
-- *apperr.Error with and without a cause, or a nil pointer of that type.
mutual
  pub data GoError : Type 0 where
    errorf : String → List Arg → GoError
    wrapf : String → List Arg → GoError → GoError
    join : GoErrors → GoError
    app : Kind → String → GoError → GoError
    app_nil : Kind → String → GoError
    nil_pointer : GoError

  pub data GoErrors : Type 0 where
    nil : GoErrors
    cons : GoError → GoErrors → GoErrors

-- Go's pair of a value and an error, of which the caller reads one.
pub data Result {ℓ} (A : Type ℓ) : Type ℓ where
  ok : A → Result A
  err : GoError → Result A

infixl 5 ◌>>=◌
abbrev pub ◌>>=◌ {ℓ κ} : {A : Type ℓ} {B : Type κ} → Result A → (A → Result B) → Result B
ok a >>= f = f a
err e >>= f = err e

-- errors.Join: nil if there is no error to join.
abbrev list_errors : List GoError → GoErrors
list_errors [] = nil
list_errors (e ∷ es) = cons e (list_errors es)

abbrev pub join_all : List GoError → Option GoError
join_all [] = none
join_all (e ∷ es) = some (join (cons e (list_errors es)))

-- The fields of an *apperr.Error.
pub record AppError : Type 0 where
  pub kind : Kind
  pub op : String
  pub err : Option GoError

unfoldable pub wrap : Kind → String → Option GoError → GoError
wrap k op none = app_nil k op
wrap k op (some e) = app k op e

-- An *apperr.Error, `none` being nil.
abbrev pub Pointer : Type 0
Pointer = Option AppError

unfoldable pub unwrap : Pointer → Option GoError
unwrap none = none
unwrap (some e) = e.err

abbrev pub or_else : Option Pointer → Option Pointer → Option Pointer
or_else none b = b
or_else (some a) b = some a

-- errors.As with a target of type *apperr.Error: the first one in a depth-first walk.
unfoldable mutual
  pub as_app : GoError → Option Pointer
  as_app (errorf f xs) = none
  as_app (wrapf f xs e) = as_app e
  as_app (join es) = as_app_list es
  as_app (app k op e) = some (some (record { kind = k; op = op; err = some e }))
  as_app (app_nil k op) = some (some (record { kind = k; op = op; err = none }))
  as_app nil_pointer = some none

  pub as_app_list : GoErrors → Option Pointer
  as_app_list nil = none
  as_app_list (cons e es) = or_else (as_app e) (as_app_list es)

-- The loop of `Is`, with fuel for its rounds; `none` means that the fuel ran out.
unfoldable pub is_loop : ℕ → Option GoError → Kind → Option Bool
is_loop fuel none k = some false
is_loop zero (some cause) k = none
is_loop (suc fuel) (some cause) k = elim (as_app cause) [
  | none ↦ some false
  | some none ↦ some false
  | some (some e) ↦ elim (kind_eq e.kind k) [
    | true ↦ some true
    | false ↦ is_loop fuel (unwrap (some e)) k
  ]
]

-- The nodes of an error, which bound the rounds.
unfoldable mutual
  pub nodes : GoError → ℕ
  nodes (errorf f xs) = 1
  nodes (wrapf f xs e) = nodes e + 1
  nodes (join es) = nodes_list es + 1
  nodes (app k op e) = nodes e + 1
  nodes (app_nil k op) = 1
  nodes nil_pointer = 1

  pub nodes_list : GoErrors → ℕ
  nodes_list nil = 0
  nodes_list (cons e es) = nodes e + nodes_list es

abbrev found : Option Bool → Bool
found none = false
found (some b) = b

-- apperr.Is
unfoldable pub is_kind : GoError → Kind → Bool
unfolding is_loop nodes as_app unwrap
is_kind e k = found (is_loop (nodes e) (some e) k)

abbrev separated : Text → Text → Text
separated [] t = t
separated (c ∷ s) t = (c ∷ s) ++ codes ": " ++ t

abbrev or_unknown : Text → Text
or_unknown [] = codes "unknown"
or_unknown (c ∷ s) = c ∷ s

-- The Error methods; `sprintf` and `join_lines` are those of fmt and errors.Join.
module _ (sprintf : String → List Arg → Text) (join_lines : List Text → Text) where
  mutual
    pub error_text : GoError → Text
    error_text (errorf f xs) = sprintf f xs
    error_text (wrapf f xs e) = sprintf f (xs ++ text (error_text e) ∷ [])
    error_text (join es) = join_lines (error_texts es)
    error_text (app k op e) = or_unknown (
        separated
          (if kind_index k == 0 then codes op else separated (codes op) (kind_string sprintf k))
          (error_text e))
    error_text (app_nil k op) =
        or_unknown
          (if kind_index k == 0 then codes op else separated (codes op) (kind_string sprintf k))
    error_text nil_pointer = codes "<nil>"

    pub error_texts : GoErrors → List Text
    error_texts nil = []
    error_texts (cons e es) = error_text e ∷ error_texts es

pub Result-cases {ℓ} :
    {A : Type ℓ} (r : Result A) → ((e : GoError) × (r ≡ err e)) ⊎ ((a : A) × (r ≡ ok a))
Result-cases (ok a) = inr (a, refl)
Result-cases (err e) = inl (e, refl)

abbrev pub failure : (A : Type 0) → GoError → Result A
failure A e = err e

pub err-injective : {A : Type 0} {x y : GoError} → failure A x ≡ failure A y → x ≡ y
err-injective {A} {x} {y} p = ap (λ r. elim r as (λ q. GoError) [ ok a ↦ x | err e ↦ e ]) p

-- ===== src/Apperr/Chain.antt =====
-- `Is` of internal/apperr/error.go against the chain of kinds that an error carries.
use Prim.Native.String.{String}
use mathlib.Core.List.{List, [], ◌∷◌}
use receiptd.Base.{
  ℕ, zero, suc, ◌+◌, ◌≤◌, ◌<◌, ◌≡◌, refl, Bool, false, ◌||◌, Option, none, some, arith,
}
use receiptd.Apperr.{
  Kind, kind_eq, GoError, GoErrors, errorf, wrapf, join, app, app_nil, nil_pointer, nil, cons,
  Pointer, wrap, unwrap, or_else, as_app, as_app_list, is_loop, nodes, nodes_list, is_kind,
}

abbrev first_nonempty : List (Option Kind) → List (Option Kind) → List (Option Kind)
first_nonempty [] b = b
first_nonempty (k ∷ ks) b = k ∷ ks

-- The kinds of the chain: each *apperr.Error, then the chain of its cause; of joined errors, the
-- chain of the first that has one. A nil *apperr.Error has no kind, `none`, and ends the chain.
mutual
  pub kinds : GoError → List (Option Kind)
  kinds (errorf f xs) = []
  kinds (wrapf f xs e) = kinds e
  kinds (join es) = kinds_list es
  kinds (app k op e) = some k ∷ kinds e
  kinds (app_nil k op) = some k ∷ []
  kinds nil_pointer = none ∷ []

  pub kinds_list : GoErrors → List (Option Kind)
  kinds_list nil = []
  kinds_list (cons e es) = first_nonempty (kinds e) (kinds_list es)

abbrev pub has_kind : Kind → List (Option Kind) → Bool
has_kind k [] = false
has_kind k (none ∷ js) = has_kind k js
has_kind k (some j ∷ js) = kind_eq j k || has_kind k js

abbrev kinds_option : Option GoError → List (Option Kind)
kinds_option none = []
kinds_option (some e) = kinds e

abbrev nodes_option : Option GoError → ℕ
nodes_option none = 0
nodes_option (some e) = nodes e

-- What `as_app` finds of an error with chain `ks` and `n` nodes.
abbrev Finds : Option Pointer → List (Option Kind) → ℕ → Type 0
Finds none ks n = ks ≡ []
Finds (some none) ks n = ks ≡ none ∷ []
Finds (some (some a)) ks n = (ks ≡ some a.kind ∷ kinds_option a.err) × (nodes_option a.err < n)

Finds-first :
    (a b : Option Pointer) (ks js : List (Option Kind)) (n m : ℕ)
    → Finds a ks n
    → Finds b js m
    → Finds (or_else a b) (first_nonempty ks js) (n + m)
Finds-first none none ks js n m h k = cc
Finds-first none (some none) ks js n m h k = rw h k
Finds-first none (some (some b)) ks js n m h k = rw h (k.0, omega arith)
Finds-first (some none) b ks js n m h k = rw h refl
Finds-first (some (some a)) b ks js n m h k = rw h.0 (refl, omega arith)

Finds-more :
    (a : Option Pointer) (ks : List (Option Kind)) (n : ℕ) → Finds a ks n → Finds a ks (n + 1)
Finds-more none ks n h = h
Finds-more (some none) ks n h = h
Finds-more (some (some a)) ks n h = (h.0, omega arith)

mutual
  unfolding as_app nodes kinds

  as_app-Finds : (e : GoError) → Finds (as_app e) (kinds e) (nodes e)
  as_app-Finds (errorf f xs) = refl
  as_app-Finds (wrapf f xs e) = Finds-more (as_app e) (kinds e) (nodes e) (as_app-Finds e)
  as_app-Finds (join es) =
      Finds-more (as_app_list es) (kinds_list es) (nodes_list es) (as_app_list-Finds es)
  as_app-Finds (app k op e) = (refl, omega arith)
  as_app-Finds (app_nil k op) = (refl, omega arith)
  as_app-Finds nil_pointer = refl

  as_app_list-Finds : (es : GoErrors) → Finds (as_app_list es) (kinds_list es) (nodes_list es)
  as_app_list-Finds nil = refl
  as_app_list-Finds (cons e es) =
      Finds-first (as_app e) (as_app_list es) (kinds e) (kinds_list es) (nodes e) (nodes_list es)
        (as_app-Finds e) (as_app_list-Finds es)

nodes_pos : (e : GoError) → 0 < nodes e
unfolding nodes
nodes_pos (errorf f xs) = omega arith
nodes_pos (wrapf f xs e) = omega arith
nodes_pos (join es) = omega arith
nodes_pos (app k op e) = omega arith
nodes_pos (app_nil k op) = omega arith
nodes_pos nil_pointer = omega arith

is_loop-has_kind :
    (fuel : ℕ) (o : Option GoError) (k : Kind)
    → nodes_option o ≤ fuel
    → is_loop fuel o k ≡ some (has_kind k (kinds_option o))
unfolding is_loop unwrap
is_loop-has_kind fuel none k h = refl
is_loop-has_kind zero (some e) k h = absurd (omega (arith, nodes_pos e))
is_loop-has_kind (suc fuel) (some e) k h =
    round (λ o q. is_loop-has_kind fuel o k q) (as_app e) refl (as_app-Finds e)
  where
    round :
        ((o : Option GoError)
          → nodes_option o ≤ fuel
          → is_loop fuel o k ≡ some (has_kind k (kinds_option o)))
        → (a : Option Pointer) → as_app e ≡ a
        → Finds a (kinds e) (nodes e)
        → is_loop (suc fuel) (some e) k ≡ some (has_kind k (kinds e))
    round again none p f = rw (p, f, is_loop)
    round again (some none) p f = rw (p, f, is_loop)
    round again (some (some a)) p f =
        rw (p, f.0, is_loop) (ground (arith, again a.err (omega arith)))

-- `is_kind` ends and answers whether some *apperr.Error on the chain has the kind; the chain is the
-- first *apperr.Error of a depth-first walk of the error, then the first of one of its cause, and so on
-- until there is none or a nil one. The fuel that it takes for its loop, the number of nodes of the error, is always
-- enough.
pub is_kind-has_kind :
    (e : GoError) (k : Kind)
    → (is_loop (nodes e) (some e) k ≡ some (has_kind k (kinds e)))
      × (is_kind e k ≡ has_kind k (kinds e))
unfolding is_kind
is_kind-has_kind e k =
    let h : is_loop (nodes e) (some e) k ≡ some (has_kind k (kinds e)) =
      is_loop-has_kind (nodes e) (some e) k (omega arith) in
    (h, rw h)

-- An error that `wrap` makes is of the kind given, and of every kind that its cause is of.
pub is_kind-wrap :
    (k j : Kind) (op : String) (e : GoError)
    → (is_kind (wrap k op (some e)) j ≡ (kind_eq k j || is_kind e j))
      × (is_kind (wrap k op none) j ≡ kind_eq k j)
unfolding wrap kinds
is_kind-wrap k j op e = (
  rw ((is_kind-has_kind (app k op e) j).1, (is_kind-has_kind e j).1),
  rw ((is_kind-has_kind (app_nil k op) j).1) (ground arith),
)

-- ===== src/Auth.antt =====
-- internal/auth/middleware.go: the middleware that asks for the shared token. strings.EqualFold,
-- and the parsing of a Basic header by r.BasicAuth, are parameters.
pub mod Admits
mod Runs
use Prim.Native.String.{String}
use receiptd.Base.{
  ℕ, Bool, true, false, not, ◌&&◌, Option, none, some, List, [], ◌∷◌, ◌==◌, if◌then◌else◌,
}
use receiptd.Base.Text.{Text, codes, text_eq}
use receiptd.Receipt.Validate.{is_empty}

-- What a request gets: what `next` serves, or a 401 with its challenge.
pub data Answer {ℓ} (A : Type ℓ) : Type ℓ where
  served : A → Answer A
  unauthorized : String → Answer A

-- strings.Cut at a separator of one byte.
unfoldable pub cut : ℕ → Text → Option (Text × Text)
cut sep [] = none
cut sep (b ∷ t) =
    let rest = cut sep t in
    if b == sep
    then some ([], t)
    else elim rest [ none ↦ none | some (before, after) ↦ some (b ∷ before, after) ]

unfoldable pub tokens_equal : Text → Text → Bool
tokens_equal supplied expected = if is_empty expected then false else text_eq supplied expected

module _ (equal_fold : Text → Text → Bool) where
  unfoldable pub bearer_credential : Text → Option Text
  unfolding cut
  bearer_credential authorization = elim (cut 32 authorization) [
    | none ↦ none
    | some (scheme, credential) ↦
        if equal_fold scheme (codes "Bearer") then some credential else none
  ]

  unfoldable pub bearer {ℓ} : {A : Type ℓ} → Text → Text → A → Answer A
  unfolding bearer_credential tokens_equal
  bearer token authorization next = elim (bearer_credential authorization) [
    | none ↦ unauthorized "Bearer"
    | some supplied ↦ if tokens_equal supplied token then served next else unauthorized "Bearer"
  ]

unfoldable pub basic {ℓ} : {A : Type ℓ} → Text → Option (Text × Text) → A → Answer A
unfolding tokens_equal
basic token none next = unauthorized "Basic realm=\"Receiptd\""
basic token (some (username, password)) next =
    if not (is_empty username) && tokens_equal password token
    then served next
    else unauthorized "Basic realm=\"Receiptd\""

-- ===== src/Config/Accepts.antt =====
-- What Config.Validate of internal/config accepts, said without the code, and what Load lets through.
use mathlib.Core.Bool.{false≢true}
use mathlib.Core.Path.{subst}
use receiptd.Base.{
  ℕ, ◌+◌, ◌^◌, ◌<◌, ◌≡◌, ◌≢◌, ◌↔◌, ◌⊎◌, inl, inr, refl, Bool, true, Option, none, some, List, [],
  ◌∷◌, All, arith, Bool-cases, Option-cases,
}
use receiptd.Base.Int.Small.{add_int64-small}
use receiptd.Base.Int.{ℤ, pos, negsuc, pos_part, ltb_ℤ, ◌≤ℤ◌, add_int64}
use receiptd.Base.Text.{Text, codes, text_eq_iff}
use receiptd.Apperr.{GoError, Kind, wrap}
use receiptd.Receipt.Decides.{
  Decides, Passes, Reports, OneOf, or_decides, one_of, not_empty, not_negative, not_reported,
  append_reports, join_all_passes, not_not,
}
use receiptd.Receipt.WellFormed.{implied, one_word}
use receiptd.Config.{
  PrinterConfig, Config, is_positive, printer_errors, validate_printer, is_seen, invalid_printers,
  validate,
}

-- A printer with a name, positive sizes, margins that are not negative and leave a width, and a cut and
-- a transport that are implemented. The margins are added as 64-bit integers.
abbrev PrinterPasses : PrinterConfig → Type 0
PrinterPasses p =
    (p.name ≢ [])
    × ((pos 1 ≤ℤ p.profile.dpi)
        × ((pos 1 ≤ℤ p.profile.width_dots)
            × ((pos 0 ≤ℤ p.profile.margin_left_dots)
                × ((pos 0 ≤ℤ p.profile.margin_right_dots)
                    × ((ltb_ℤ (pos 0) p.profile.width_dots ≡ true
                          → ltb_ℤ (add_int64 p.profile.margin_left_dots p.profile.margin_right_dots)
                              p.profile.width_dots
                            ≡ true)
                        × ((pos 0 ≤ℤ p.profile.max_image_height_dots)
                            × (OneOf ("full" ∷ "partial" ∷ []) p.profile.default_cut
                                × (p.connection.transport ≡ codes "network"))))))))

positive : (z : ℤ) → Decides (is_positive z) (pos 1 ≤ℤ z)
positive z = (λ h. ground arith, λ h. ground arith)

printer_errors-Reports : (p : PrinterConfig) → Reports (printer_errors p) (PrinterPasses p)
unfolding printer_errors
printer_errors-Reports p = append_reports _ _ (not_reported _ _ (not_empty p.name)) (
    append_reports _ _ (not_reported _ _ (not_not _ (positive p.profile.dpi))) (
      append_reports _ _ (not_reported _ _ (not_not _ (positive p.profile.width_dots))) (
        append_reports _ _ (not_reported _ _ (not_negative p.profile.margin_left_dots)) (
          append_reports _ _ (not_reported _ _ (not_negative p.profile.margin_right_dots)) (
            append_reports _ _ (not_reported _ _ (implied _ _ (is_set _))) (
              append_reports _ _ (not_reported _ _ (not_negative p.profile.max_image_height_dots)) (
                append_reports _ _
                  (not_reported _ _
                    (not_not _ (one_of ("full" ∷ "partial" ∷ []) p.profile.default_cut)))
                  (not_reported _ _ (not_not _ (one_word "network" p.connection.transport))))))))))
  where
    is_set : (b : Bool) → Decides b (b ≡ true)
    is_set b = (λ h. h, λ h. h)

abbrev IsIn : Text → List Text → Type 0
IsIn name [] = ⊥
IsIn name (s ∷ seen) = (name ≡ s) ⊎ IsIn name seen

is_seen-Decides : (name : Text) (seen : List Text) → Decides (is_seen name seen) (IsIn name seen)
is_seen-Decides name [] = (λ h. cc, λ h. absurd h)
is_seen-Decides name (s ∷ seen) = or_decides _ _ (text_eq_iff name s) (is_seen-Decides name seen)

-- No name occurs twice, nor is one of those given.
abbrev pub AreDistinct : List Text → List PrinterConfig → Type 0
AreDistinct seen [] = Unit
AreDistinct seen (p ∷ ps) = (¬ IsIn p.name seen) × AreDistinct (p.name ∷ seen) ps

invalid_printers-Reports :
    (ps : List PrinterConfig) (i : ℕ) (seen : List Text)
    → Reports (invalid_printers i seen ps) (All PrinterPasses ps × AreDistinct seen ps)
unfolding invalid_printers validate_printer
invalid_printers-Reports [] i seen = (λ h. (tt, tt), λ h. refl)
invalid_printers-Reports (p ∷ ps) i seen =
    let valid : Passes (validate_printer p) (PrinterPasses p) =
      join_all_passes _ (printer_errors-Reports p) in
    elim (Option-cases (validate_printer p)) [
      | inr (e, a) ↦ rw (invalid_printers, a) (λ h. cc, λ h. cc (a, valid.1 h.0.0))
      | inl a ↦ elim (Bool-cases (is_seen p.name seen)) [
        | inl b ↦
            rw (invalid_printers, a, b)
              (λ h. cc, λ h. absurd (h.1.0 ((is_seen-Decides p.name seen).0 b)))
        | inr b ↦
            let fresh : ¬ IsIn p.name seen =
              λ m. false≢true (subst (λ c. c ≡ true) b ((is_seen-Decides p.name seen).1 m)) in
            let rest = invalid_printers-Reports ps (i + 1) (p.name ∷ seen) in
            rw (invalid_printers, a, b)
              (λ h. ((valid.0 a, (rest.0 h).0), (fresh, (rest.0 h).1)), λ h. rest.1 (h.0.1, h.1.1))
      ]
    ]

-- What Validate tests of a configuration.
abbrev ConfigPasses : Config → Type 0
ConfigPasses c =
    (c.address ≢ [])
    × (OneOf ("memory" ∷ "bbolt" ∷ []) c.queue.store
        × ((pos 1 ≤ℤ c.queue.max_attempts)
            × ((pos 1 ≤ℤ c.queue.retry_backoff)
                × (All PrinterPasses c.printers × AreDistinct [] c.printers))))

wrapped_cases :
    (o : Option GoError) {P : Type 0}
    → Passes o P
    → ((elim o [ none ↦ none | some e ↦ some (wrap Kind.validation "config.Validate" (some e)) ]
          ≡ Option.none)
        ↔ P)
wrapped_cases none p = p
wrapped_cases (some e) p = (λ h. cc, λ h. cc (p.1 h))

validate-ConfigPasses : (c : Config) → (validate c ≡ none) ↔ ConfigPasses c
unfolding validate
validate-ConfigPasses c = wrapped_cases _ (
    join_all_passes _ (
      append_reports _ _ (not_reported _ _ (not_empty c.address)) (
        append_reports _ _
          (not_reported _ _ (not_not _ (one_of ("memory" ∷ "bbolt" ∷ []) c.queue.store)))
          (append_reports _ _ (not_reported _ _ (not_not _ (positive c.queue.max_attempts))) (
            append_reports _ _ (not_reported _ _ (not_not _ (positive c.queue.retry_backoff)))
              (invalid_printers-Reports c.printers 0 []))))))

-- What a printer entry has to be: its margins leave a part of the page, whatever their sum.
abbrev pub PrinterIsValid : PrinterConfig → Type 0
PrinterIsValid p =
    (p.name ≢ [])
    × (pos 1 ≤ℤ p.profile.dpi)
    × (pos 1 ≤ℤ p.profile.width_dots)
    × (pos 0 ≤ℤ p.profile.margin_left_dots)
    × (pos 0 ≤ℤ p.profile.margin_right_dots)
    × (pos_part p.profile.margin_left_dots + pos_part p.profile.margin_right_dots
        < pos_part p.profile.width_dots)
    × (pos 0 ≤ℤ p.profile.max_image_height_dots)
    × OneOf ("full" ∷ "partial" ∷ []) p.profile.default_cut
    × (p.connection.transport ≡ codes "network")

-- The margins can be added in an int.
abbrev pub MarginsFit : PrinterConfig → Type 0
MarginsFit p = pos_part p.profile.margin_left_dots + pos_part p.profile.margin_right_dots < 2 ^ 63

leaves_room :
    (l r w : ℤ)
    → pos 1 ≤ℤ w
    → pos 0 ≤ℤ l
    → pos 0 ≤ℤ r
    → pos_part l + pos_part r < 2 ^ 63
    → (ltb_ℤ (pos 0) w ≡ true → ltb_ℤ (add_int64 l r) w ≡ true)
      ↔ (pos_part l + pos_part r < pos_part w)
leaves_room (pos a) (pos b) (pos w) p q r h =
    rw (add_int64-small a b h)
      (λ k. (let e = k (ground (arith, p)) in ground (arith, e)), λ k u. ground (arith, k))
leaves_room (negsuc a) r w p q k h = absurd (omega (arith, q))
leaves_room (pos a) (negsuc b) w p q k h = absurd (omega (arith, k))
leaves_room (pos a) (pos b) (negsuc w) p q k h = absurd (omega (arith, p))

PrinterPasses-iff : (p : PrinterConfig) → MarginsFit p → PrinterPasses p ↔ PrinterIsValid p
PrinterPasses-iff p h = (
  λ (n, (d, (w, (l, (r, (m, (i, (c, t)))))))). (n, d, w, l, r, (room w l r).0 m, i, c, t),
  λ (n, d, w, l, r, m, i, c, t). (n, (d, (w, (l, (r, ((room w l r).1 m, (i, (c, t)))))))),
)
  where
    room :
        pos 1 ≤ℤ p.profile.width_dots
        → pos 0 ≤ℤ p.profile.margin_left_dots
        → pos 0 ≤ℤ p.profile.margin_right_dots
        → (ltb_ℤ (pos 0) p.profile.width_dots ≡ true
            → ltb_ℤ
                (add_int64 p.profile.margin_left_dots p.profile.margin_right_dots)
                p.profile.width_dots
              ≡ true)
          ↔ (pos_part p.profile.margin_left_dots + pos_part p.profile.margin_right_dots
              < pos_part p.profile.width_dots)
    room w l r =
        leaves_room p.profile.margin_left_dots p.profile.margin_right_dots p.profile.width_dots w l
          r h

-- What a configuration has to be.
abbrev pub ConfigIsValid : Config → Type 0
ConfigIsValid c =
    (c.address ≢ [])
    × (OneOf ("memory" ∷ "bbolt" ∷ []) c.queue.store
        × ((pos 1 ≤ℤ c.queue.max_attempts)
            × ((pos 1 ≤ℤ c.queue.retry_backoff)
                × (All PrinterIsValid c.printers × AreDistinct [] c.printers))))

All-iff :
    {A : Type 0} (P Q R : A → Type 0)
    → ((a : A) → R a → P a ↔ Q a)
    → (xs : List A) → All R xs
    → All P xs ↔ All Q xs
All-iff P Q R f [] h = (λ x. tt, λ x. tt)
All-iff P Q R f (a ∷ xs) h =
    let rest = All-iff P Q R f xs h.1 in
    (λ x. ((f a h.0).0 x.0, rest.0 x.1), λ x. ((f a h.0).1 x.0, rest.1 x.1))

-- Validate accepts a configuration exactly if it has an address, a store that is implemented, attempts
-- and a backoff that are positive, and valid printers with names that all differ; provided that the
-- margins of each printer can be added in an int.
pub validate-ConfigIsValid :
    (c : Config) → All MarginsFit c.printers → (validate c ≡ none) ↔ ConfigIsValid c
validate-ConfigIsValid c h =
    let v = validate-ConfigPasses c in
    let m = All-iff PrinterPasses PrinterIsValid MarginsFit PrinterPasses-iff c.printers h in
    (
      λ e. let (a, (q, (n, (b, (ps, u))))) = v.0 e in (a, (q, (n, (b, (m.0 ps, u))))),
      λ (a, (q, (n, (b, (ps, u))))). v.1 (a, (q, (n, (b, (m.1 ps, u))))),
    )

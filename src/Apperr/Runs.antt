-- ===== src/Apperr/Runs.antt =====
-- Concrete errors of internal/apperr, and its theorems at them.
use receiptd.Base.{◌≡◌, refl, true, none, some, [], ◌||◌}
use receiptd.Base.Text.{codes}
use receiptd.Apperr.{
  permanent, transient, GoError, errorf, wrapf, join, app, nil, cons, wrap, is_loop, nodes, is_kind,
  as_app, error_text, kind_eq, kind_string, unwrap,
}
use receiptd.Apperr.Chain.{kinds, has_kind, is_kind-has_kind, is_kind-wrap}

abbrev send_failure : GoError
send_failure = app transient "printer.Send" (errorf "connection refused" [])

abbrev joined : GoError
joined = join (cons (errorf "a" []) (cons (wrapf "b: %w" [] send_failure) nil))

joined_is_transient : is_kind joined transient ≡ true
unfolding is_kind is_loop nodes as_app unwrap
joined_is_transient = refl

text_of_wrapped :
    error_text (λ f xs. codes f) (λ ls. []) send_failure
    ≡ codes "printer.Send: transient: connection refused"
unfolding error_text kind_string
text_of_wrapped = refl

is_kind-has_kind_example :
    (is_loop (nodes joined) (some joined) transient ≡ some (has_kind transient (kinds joined)))
    × (is_kind joined transient ≡ has_kind transient (kinds joined))
is_kind-has_kind_example = is_kind-has_kind joined transient

is_kind-wrap_example :
    (is_kind (wrap permanent "app.Process" (some send_failure)) transient
      ≡ (kind_eq permanent transient || is_kind send_failure transient))
    × (is_kind (wrap permanent "app.Process" none) transient ≡ kind_eq permanent transient)
is_kind-wrap_example = is_kind-wrap permanent transient "app.Process" send_failure

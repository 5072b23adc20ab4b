-- ===== src/Auth/Runs.antt =====
-- Runs of the middleware.
use receiptd.Base.{◌≡◌, refl, some}
use receiptd.Base.Text.{codes, text_eq}
use receiptd.Auth.{served, bearer, basic, tokens_equal}
use receiptd.Auth.Admits.{Judges, bearer-Judges}

bearer-Judges_example :
    Judges text_eq
      (codes "s3cret")
      (codes "Bearer s3cret")
      (codes "page")
      (bearer text_eq (codes "s3cret") (codes "Bearer s3cret") (codes "page"))
bearer-Judges_example =
    bearer-Judges text_eq (codes "s3cret") (codes "Bearer s3cret") (codes "page")

basic_run : basic (codes "t") (some (codes "me", codes "t")) (codes "page") ≡ served (codes "page")
unfolding basic tokens_equal text_eq
basic_run = refl

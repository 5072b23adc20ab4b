-- ===== src/App/Printers/Runs.antt =====
-- Runs of ListPrinters.
use receiptd.Base.{◌≡◌, refl, Bool, true, false, Option, none, some, [], ◌∷◌, if◌then◌else◌}
use receiptd.Base.Int.{pos}
use receiptd.Base.Text.{Text, codes, text_ltb}
use receiptd.Base.Sort.{sort_by}
use receiptd.Apperr.{GoError, errorf}
use receiptd.Render.{Profile}
use receiptd.App.{Service, ConnectionSummary}
use receiptd.App.Printers.{Status, printer_names}

abbrev profile : Profile
profile = record {
  width_dots = pos 384;
  dpi = pos 203;
  margin_left_dots = pos 0;
  margin_right_dots = pos 0;
  supports_cut = true;
  supports_partial_cut = false;
  default_cut = codes "full";
  max_image_height_dots = pos 0;
}

abbrev conn : ConnectionSummary
conn = record { transport = codes "tcp"; address = codes "10.0.0.7" }

-- A printer is whether it answers.
abbrev shop : Service Bool
shop = record {
  printers = (codes "till", true) ∷ (codes "bar", false) ∷ [];
  profiles = (codes "bar", profile) ∷ (codes "till", profile) ∷ [];
  connections = (codes "bar", conn) ∷ (codes "till", conn) ∷ [];
  assets = none;
}

abbrev probe : Bool → Status × Option GoError
probe answers =
    if answers
    then (record { online = true; detail = [] }, none)
    else (record { online = true; detail = [] }, some (errorf "dial failed" []))

abbrev text_of : GoError → Text
text_of e = codes "dial failed"

names_run : printer_names shop ≡ codes "bar" ∷ codes "till" ∷ []
unfolding printer_names sort_by text_ltb
names_run = refl

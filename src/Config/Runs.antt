-- ===== src/Config/Runs.antt =====
-- Concrete configurations of internal/config, and its theorem at one.
use receiptd.Base.{◌≡◌, ◌↔◌, refl, arith, true, none, [], ◌∷◌}
use receiptd.Base.Int.{pos, negsuc, add_int64}
use receiptd.Base.Text.{codes, text_eq}
use receiptd.Config.{
  Config, PrinterConfig, epson_tm_m30ii, validate, validate_printer, printer_errors,
  invalid_printers,
}
use receiptd.Config.Accepts.{ConfigIsValid, validate-ConfigIsValid}

abbrev kitchen : PrinterConfig
kitchen = record {
  name = codes "kitchen";
  model = codes "epson-tm-m30ii";
  profile = epson_tm_m30ii;
  connection = record {
    transport = codes "network";
    address = codes "10.0.0.7:9100";
    device = [];
    mac = [];
  };
}

abbrev single : Config
single = record {
  address = codes ":8080";
  auth = record { enabled = true; token_file = [] };
  assets_path = codes "assets";
  queue = record {
    store = codes "memory";
    path = [];
    max_attempts = pos 3;
    retry_backoff = pos 5_000_000_000;
  };
  printers = kitchen ∷ [];
}

single_accepted : validate single ≡ none
unfolding validate invalid_printers validate_printer printer_errors text_eq add_int64
single_accepted = refl

-- Two margins of 2^62 dots add up to a negative number of dots.
margins_overflow :
    add_int64 (pos 4611686018427387904) (pos 4611686018427387904) ≡ negsuc 9223372036854775807
unfolding add_int64
margins_overflow = refl

validate-ConfigIsValid_example : (validate single ≡ none) ↔ ConfigIsValid single
validate-ConfigIsValid_example = validate-ConfigIsValid single (omega arith, tt)

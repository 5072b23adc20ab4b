-- ===== src/Config.antt =====
-- internal/config: the configuration, its Validate (validate.go), the profile of a printer entry (printer.go)
-- and Load (config.go). YAML, floating-point numbers and the file system are parameters.
pub mod Accepts
mod Runs
use Prim.Native.String.{String}
use receiptd.Base.{
  ℕ, ◌+◌, ◌-◌, ◌%◌, ◌^◌, Bool, true, false, not, ◌&&◌, ◌||◌, Option, none, some, List, [], ◌∷◌,
  ◌++◌, ltb, if◌then◌else◌,
}
use receiptd.Base.Int.{ℤ, pos, ltb_ℤ, add_int64}
use receiptd.Base.Text.{Text, codes, text_eq}
use receiptd.Apperr.{
  GoError, Kind, errorf, wrapf, join_all, wrap, Result, ok, err, Arg, int, num, ◌>>=◌,
}
use receiptd.Receipt.Validate.{is_any, is_empty}
use receiptd.Render.{Profile}

-- printer.Connection
pub record Connection : Type 0 where
  pub transport : Text
  pub address : Text
  pub device : Text
  pub mac : Text

pub record PrinterConfig : Type 0 where
  pub name : Text
  pub model : Text
  pub profile : Profile
  pub connection : Connection

pub record QueueConfig : Type 0 where
  pub store : Text
  pub path : Text
  pub max_attempts : ℤ
  pub retry_backoff : ℤ

pub record AuthConfig : Type 0 where
  pub enabled : Bool
  pub token_file : Text

-- The fields of Config that its Validate and the startup read.
pub record Config : Type 0 where
  pub address : Text
  pub auth : AuthConfig
  pub assets_path : Text
  pub queue : QueueConfig
  pub printers : List PrinterConfig

abbrev pub report : Bool → GoError → List GoError
report b e = if b then e ∷ [] else []

-- `z <= 0`
abbrev pub is_positive : ℤ → Bool
is_positive z = ltb_ℤ (pos 0) z

-- The margins together reach the width. Go adds them modulo 2^64.
abbrev pub margins_reach : Profile → Bool
margins_reach p =
    ltb_ℤ (pos 0) p.width_dots
    && not (ltb_ℤ (add_int64 p.margin_left_dots p.margin_right_dots) p.width_dots)

unfoldable pub printer_errors : PrinterConfig → List GoError
printer_errors p =
    report (is_empty p.name) (errorf "name is required" [])
    ++ (report (not (is_positive p.profile.dpi))
          (errorf "dpi must be positive, got %d" (int p.profile.dpi ∷ []))
        ++ (report (not (is_positive p.profile.width_dots)) (
              errorf "printable width must be positive, got %d dots"
                (int p.profile.width_dots ∷ []))
            ++ (report (ltb_ℤ p.profile.margin_left_dots (pos 0)) (
                  errorf "margins_dots.left must not be negative, got %d"
                    (int p.profile.margin_left_dots ∷ []))
                ++ (report (ltb_ℤ p.profile.margin_right_dots (pos 0)) (
                      errorf "margins_dots.right must not be negative, got %d"
                        (int p.profile.margin_right_dots ∷ []))
                    ++ (report (margins_reach p.profile) (
                          errorf
                            "margins_dots.left + margins_dots.right must leave a positive usable width, got %d + %d >= %d dots"
                            (int p.profile.margin_left_dots
                              ∷ int p.profile.margin_right_dots
                              ∷ int p.profile.width_dots
                              ∷ []))
                        ++ (report (ltb_ℤ p.profile.max_image_height_dots (pos 0)) (
                              errorf "max_image_height_dots must not be negative, got %d"
                                (int p.profile.max_image_height_dots ∷ []))
                            ++ (report
                                  (not (is_any ("full" ∷ "partial" ∷ []) p.profile.default_cut))
                                  (errorf "default_cut must be %q or %q, got %q" (
                                    Arg.text (codes "full")
                                    ∷ Arg.text (codes "partial")
                                    ∷ Arg.text p.profile.default_cut
                                    ∷ []))
                                ++ report (not (is_any ("network" ∷ []) p.connection.transport)) (
                                    errorf
                                      "transport must be %q (usb, bluetooth, serial are not yet supported), got %q"
                                      (Arg.text (codes "network")
                                        ∷ Arg.text p.connection.transport
                                        ∷ [])))))))))

unfoldable pub validate_printer : PrinterConfig → Option GoError
validate_printer p = join_all (printer_errors p)

abbrev pub is_seen : Text → List Text → Bool
is_seen name [] = false
is_seen name (s ∷ seen) = text_eq name s || is_seen name seen

-- The loop over the printers: `seen` has the names of the valid ones so far.
unfoldable pub invalid_printers : ℕ → List Text → List PrinterConfig → List GoError
invalid_printers i seen [] = []
invalid_printers i seen (p ∷ ps) = elim (validate_printer p) [
  | some e ↦
      wrapf "printers[%d] %q: %w" (num i ∷ Arg.text p.name ∷ []) e
      ∷ invalid_printers (i + 1) seen ps
  | none ↦ elim (is_seen p.name seen) [
    | true ↦
        errorf "printers[%d]: duplicate printer name %q" (num i ∷ Arg.text p.name ∷ [])
        ∷ invalid_printers (i + 1) seen ps
    | false ↦ invalid_printers (i + 1) (p.name ∷ seen) ps
  ]
]

-- Config.Validate
unfoldable pub validate : Config → Option GoError
validate c =
    elim (join_all (
      report (is_empty c.address) (errorf "server.address is required" [])
      ++ (report (not (is_any ("memory" ∷ "bbolt" ∷ []) c.queue.store)) (
            errorf "queue.store must be %q or %q, got %q"
              (Arg.text (codes "memory") ∷ Arg.text (codes "bbolt") ∷ Arg.text c.queue.store ∷ []))
          ++ (report (not (is_positive c.queue.max_attempts)) (
                errorf "queue.max_attempts must be positive, got %d"
                  (int c.queue.max_attempts ∷ []))
              ++ (report (not (is_positive c.queue.retry_backoff)) (
                    errorf "queue.retry_backoff must be positive, got %v"
                      (int c.queue.retry_backoff ∷ []))
                  ++ invalid_printers 0 [] c.printers))))) [
                    | none ↦ none
                    | some e ↦ some (wrap Kind.validation "config.Validate" (some e))
                  ]

-- printer.ModelProfiles, its one entry.
abbrev pub epson_tm_m30ii : Profile
epson_tm_m30ii = record {
  width_dots = pos 576;
  dpi = pos 203;
  margin_left_dots = pos 0;
  margin_right_dots = pos 0;
  supports_cut = true;
  supports_partial_cut = true;
  default_cut = codes "partial";
  max_image_height_dots = pos 0;
}

unfoldable pub model_profile : Text → Option Profile
model_profile model = if is_any ("epson-tm-m30ii" ∷ []) model then some epson_tm_m30ii else none

-- What a printer entry of the YAML has; a width in mm is a floating-point number, an `F`.
pub record RawProfile (F : Type 0) : Type 0 where
  pub printable_width_mm : F
  pub dpi : ℤ
  pub left : ℤ
  pub right : ℤ
  pub supports_cut : Bool
  pub supports_partial_cut : Bool
  pub default_cut : Text
  pub max_image_height_dots : ℤ

pub record RawPrinter (F : Type 0) : Type 0 where
  pub name : Text
  pub model : Text
  pub connection : Connection
  pub profile : Option (RawProfile F)

module _ {F : Type 0} (width_dots_from_mm : F → ℤ → ℤ) where
  abbrev explicit_profile : RawProfile F → Profile
  explicit_profile raw = record {
    width_dots = width_dots_from_mm raw.printable_width_mm raw.dpi;
    dpi = raw.dpi;
    margin_left_dots = raw.left;
    margin_right_dots = raw.right;
    supports_cut = raw.supports_cut;
    supports_partial_cut = raw.supports_partial_cut;
    default_cut = raw.default_cut;
    max_image_height_dots = raw.max_image_height_dots;
  }

  -- PrinterConfig.UnmarshalYAML, of what the node decodes to.
  unfoldable pub unmarshal_printer : Result (RawPrinter F) → Result PrinterConfig
  unfolding model_profile
  unmarshal_printer (err e) = err e
  unmarshal_printer (ok raw) = elim raw.profile [
    | some explicit ↦
        if not (is_empty raw.model)
        then err (
            errorf "printer %q: specify either %q or %q, not both"
              (Arg.text raw.name ∷ Arg.text (codes "model") ∷ Arg.text (codes "profile") ∷ []))
        else ok (record {
          name = raw.name;
          model = [];
          profile = explicit_profile explicit;
          connection = raw.connection;
        })
    | none ↦
        if is_empty raw.model
        then err (
            errorf "printer %q: specify either %q or %q"
              (Arg.text raw.name ∷ Arg.text (codes "model") ∷ Arg.text (codes "profile") ∷ []))
        else elim (model_profile raw.model) [
          | none ↦ err (
              errorf "printer %q: unknown model %q (known models: %s)"
                (Arg.text raw.name ∷ Arg.text raw.model ∷ Arg.text (codes "epson-tm-m30ii") ∷ []))
          | some profile ↦ ok (record {
            name = raw.name;
            model = raw.model;
            profile = profile;
            connection = raw.connection;
          })
        ]
  ]

-- What os.ReadFile answers: an error is told apart by whether the file exists.
pub data FileResult : Type 0 where
  missing : GoError → FileResult
  unreadable : GoError → FileResult
  contents : Text → FileResult

-- Load. `unmarshal` is yaml.Unmarshal, which calls the UnmarshalYAML methods.
unfoldable pub load : (Text → Result Config) → FileResult → Result Config
load unmarshal (missing e) = err (wrap Kind.not_found "config.Load" (some e))
load unmarshal (unreadable e) = err (wrap Kind.permanent "config.Load" (some e))
load unmarshal (contents bytes) = elim (unmarshal bytes) [
  | err e ↦ err (wrap Kind.validation "config.Load" (some e))
  | ok c ↦ elim (validate c) [ some e ↦ err e | none ↦ ok c ]
]

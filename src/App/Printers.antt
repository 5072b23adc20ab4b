-- ===== src/App/Printers.antt =====
-- internal/app/printers.go: the listing of the configured printers. Each printer is probed by a
-- goroutine of its own, which writes its own summary, so the order of the probes does not matter;
-- the time limit of a probe is part of what the probe answers.
pub mod Listing
mod Runs
use receiptd.Base.{ℕ, Bool, false, Option, none, some, List, [], ◌∷◌, map}
use receiptd.Base.Int.{ℤ}
use receiptd.Base.Text.{Text}
use receiptd.Base.Map.{Map, lookup}
use receiptd.Base.Sort.{sort_by}
use receiptd.Apperr.{GoError, Kind, Result, ok, err}
use receiptd.Render.{Profile}
use receiptd.App.{Service, ConnectionSummary, not_configured}

-- printer.Status
pub record Status : Type 0 where
  pub online : Bool
  pub detail : Text

pub record PrinterSummary : Type 0 where
  pub name : Text
  pub transport : Text
  pub address : Text
  pub width_dots : ℤ
  pub dpi : ℤ
  pub supports_cut : Bool
  pub supports_partial_cut : Bool
  pub online : Bool
  pub status_detail : Text

-- The `entry` of ListPrinters.
pub record Entry (P : Type 0) : Type 0 where
  pub name : Text
  pub printer : P
  pub profile : Profile
  pub conn : ConnectionSummary

-- The error wins over what the status says.
unfoldable pub status_of : (GoError → Text) → Status × Option GoError → Status
status_of text_of (status, none) = status
status_of text_of (status, some e) = record { online = false; detail = text_of e }

-- `probe` is Printer.Status and `text_of` the Error of its error.
module _ {P : Type 0} (probe : P → Status × Option GoError) (text_of : GoError → Text) where
  unfoldable pub printer_summary_with_status : Entry P → PrinterSummary
  unfolding status_of
  printer_summary_with_status e =
      let status = status_of text_of (probe e.printer) in
      record {
        name = e.name;
        transport = e.conn.transport;
        address = e.conn.address;
        width_dots = e.profile.width_dots;
        dpi = e.profile.dpi;
        supports_cut = e.profile.supports_cut;
        supports_partial_cut = e.profile.supports_partial_cut;
        online = status.online;
        status_detail = status.detail;
      }

module _ {P : Type 0} (svc : Service P) where
  -- The loop over Printers.
  unfoldable pub entries : Map P → Result (List (Entry P))
  entries [] = ok []
  entries ((name, p) ∷ m) =
      let rest = entries m in
      elim (lookup name svc.profiles) [
        | none ↦ err (
            not_configured Kind.permanent "app.ListPrinters" "printer %q has no configured Profile"
              name)
        | some profile ↦ elim (lookup name svc.connections) [
          | none ↦ err (
              not_configured Kind.permanent "app.ListPrinters"
                "printer %q has no configured ConnectionSummary" name)
          | some conn ↦ elim rest [
            | err e ↦ err e
            | ok es ↦ ok (record { name = name; printer = p; profile = profile; conn = conn } ∷ es)
          ]
        ]
      ]

  unfoldable pub list_printers :
      (P → Status × Option GoError) → (GoError → Text) → Result (List PrinterSummary)
  unfolding entries printer_summary_with_status
  list_printers probe text_of = elim (entries svc.printers) [
    | err e ↦ err e
    | ok es ↦ ok (sort_by (λ s. s.name) (map (printer_summary_with_status probe text_of) es))
  ]

  unfoldable pub names_of : Map P → List Text
  names_of [] = []
  names_of ((name, p) ∷ m) = name ∷ names_of m

  unfoldable pub printer_names : List Text
  unfolding names_of
  printer_names = sort_by (λ n. n) (names_of svc.printers)

-- ===== src/App/Printers/Listing.antt =====
-- ListPrinters and PrinterNames of internal/app/printers.go.
use receiptd.Base.{◌≡◌, ◌⊎◌, true, Option, none, some, List, length}
use Prim.Native.String.{String}
use receiptd.Base.Text.{Text}
use receiptd.Base.Map.{Map, lookup}
use receiptd.Base.Sort.{In, IsSortedBy}
use receiptd.Apperr.{GoError, Kind, is_kind, Result, ok, err}
use receiptd.App.{Service}
use receiptd.App.Printers.{Status, PrinterSummary, Entry, printer_summary_with_status}

module _ {P : Type 0} (svc : Service P) where
  abbrev pub Incomplete : Text → Type 0
  Incomplete n = (lookup n svc.profiles ≡ none) ⊎ (lookup n svc.connections ≡ none)

  -- The loop over a part of the printers.
  abbrev Collected : Map P → Result (List (Entry P)) → Type 0
  Collected m (err e) =
      (is_kind e Kind.permanent ≡ true)
      × (n : Text) × (p : P) × (lookup n m ≡ some p)
      × Incomplete n
  Collected m (ok es) =
      (length es ≡ length m)
      × ((e : Entry P)
          → In e es
          → (lookup e.name m ≡ some e.printer)
            × (lookup e.name svc.profiles ≡ some e.profile)
            × (lookup e.name svc.connections ≡ some e.conn))
      × ((n : Text) (p : P) → lookup n m ≡ some p → (e : Entry P) × In e es × (e.name ≡ n))

  module _ (probe : P → Status × Option GoError) (text_of : GoError → Text) where
    abbrev summary : Entry P → PrinterSummary
    summary = printer_summary_with_status probe text_of

    -- The summary of a configured printer, under its name.
    abbrev pub Shows : PrinterSummary → Type 0
    Shows s =
        (e : Entry P) × (lookup s.name svc.printers ≡ some e.printer)
        × (lookup s.name svc.profiles ≡ some e.profile)
        × (lookup s.name svc.connections ≡ some e.conn)
        × (s ≡ printer_summary_with_status probe text_of e)

    abbrev pub ListsPrinters : Result (List PrinterSummary) → Type 0
    ListsPrinters (err e) =
        (is_kind e Kind.permanent ≡ true)
        × (n : Text) × (p : P) × (lookup n svc.printers ≡ some p)
        × Incomplete n
    ListsPrinters (ok ss) =
        IsSortedBy (λ s. s.name) ss
        × (length ss ≡ length svc.printers)
        × ((s : PrinterSummary) → In s ss → Shows s)
        × ((n : Text) (p : P)
            → lookup n svc.printers ≡ some p
            → (s : PrinterSummary) × In s ss × (s.name ≡ n))

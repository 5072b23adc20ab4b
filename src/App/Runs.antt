-- ===== src/App/Runs.antt =====
-- Concrete runs of internal/app, from a receipt to the bytes sent, and the theorems at them.
use receiptd.Base.{ℕ, true, false, Option, none, List, [], ◌∷◌}
use receiptd.Base.Int.{pos}
use receiptd.Base.Text.{codes}
use receiptd.Base.Map.{lookup}
use receiptd.Apperr.{GoError, ok}
use receiptd.Receipt.{Element}
use receiptd.Receipt.Runs.{lenient, slip}
use receiptd.Document.{Document, plain, normal_style}
use receiptd.Layout.Build.{block_at}
use receiptd.Layout.Runs.{fixed_font}
use receiptd.Render.{Profile}
use receiptd.Queue.Memory.{memory_store}
use receiptd.Queue.Memory.Laws.{view}
use receiptd.Queue.Memory.Contract.{memory_lawful, no_jobs-IsWell}
use receiptd.Queue.World.{World, returned}
use receiptd.App.{Service, process, print, queue_summary, new_job}
use receiptd.App.Summary.{Summarizes, queue_summary-Summarizes}
use receiptd.App.Intake.{HoldsValid, Prints, print-Prints}

abbrev kitchen : Profile
kitchen = record {
  width_dots = pos 576;
  dpi = pos 203;
  margin_left_dots = pos 0;
  margin_right_dots = pos 0;
  supports_cut = true;
  supports_partial_cut = true;
  default_cut = codes "partial";
  max_image_height_dots = pos 256;
}

abbrev shop : Service (Unit {0})
shop = record {
  printers = (codes "kitchen", tt) ∷ [];
  profiles = (codes "kitchen", kitchen) ∷ [];
  connections = [];
  assets = none;
}

-- The bytes that were sent, copy after copy.
abbrev sent_to : Unit {0} → List ℕ → List (List ℕ) → Option GoError × List (List ℕ)
sent_to q bytes w = (none, bytes ∷ w)

abbrev still : World (Unit {0})
still = record {
  process = λ j w. (returned none, w);
  now = λ w. (7, w);
  sleep = λ d w. w;
  is_cancelled = λ w. false;
  random = λ w. (ok (1 ∷ 171 ∷ []), w);
}

no_jobs-HoldsValid : HoldsValid lenient (view [])
unfolding lookup
no_jobs-HoldsValid k j e = cc

print-Prints_example :
    Prints lenient memory_store memory_lawful still slip [] tt
      (print lenient memory_store still slip (codes "kitchen") (codes "k1") [] tt)
unfolding memory_lawful
print-Prints_example =
    print-Prints lenient memory_store memory_lawful still slip (codes "kitchen") (codes "k1") [] tt
      no_jobs-IsWell no_jobs-HoldsValid

queue_summary-Summarizes_example :
    Summarizes
      (memory_store.list ((codes "j1", new_job slip (codes "kitchen")) ∷ []))
      (queue_summary memory_store still ((codes "j1", new_job slip (codes "kitchen")) ∷ []))
queue_summary-Summarizes_example =
    queue_summary-Summarizes memory_store still ((codes "j1", new_job slip (codes "kitchen")) ∷ [])

-- A document of no blocks, and of one feed.
abbrev fed_page : Document
fed_page = record {
  width_dots = pos 576;
  blocks = block_at 0 normal_style (plain (Element.feed (pos 3))) ∷ [];
  font = fixed_font;
}

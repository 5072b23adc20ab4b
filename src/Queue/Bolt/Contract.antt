-- ===== src/Queue/Bolt/Contract.antt =====
-- The store of internal/queue/store_bolt.go as a lawful Store.
use receiptd.Base.{refl}
use receiptd.Queue.Store.{Lawful, Refines}
use receiptd.Queue.Bolt.{Bbolt, Json, bolt_store}
use receiptd.Queue.Bolt.Reading.{IsBbolt, IsJson}
use receiptd.Queue.Bolt.Snapshot.{view, IsWell}
use receiptd.Queue.Bolt.Writes.{keyed}
use receiptd.Queue.Bolt.Methods.{
  save-Saved, get-Gets, list-Lists, next_pending-NextPending, claim-Claimed,
}
use receiptd.Queue.Bolt.Idempotent.{enqueue_idempotent-Enqueued}

module _ {B D : Type 0} (db : Bbolt B D) (json : Json D) (law : IsBbolt db)
    (codec : IsJson json) where
  unfoldable pub bolt_lawful : Lawful (bolt_store db json)
  bolt_lawful = record {
    IsWell = IsWell db json;
    view = view db json;
    keyed = λ s k j w e. keyed db json law codec s k j w e;
    save_law = λ j s w. (save-Saved db json law codec j s w).0;
    save_well = λ j s w. (save-Saved db json law codec j s w).1;
    get_law = get-Gets db json law codec;
    list_law = list-Lists db json law codec;
    next_law = next_pending-NextPending db json law codec;
    claim_law = λ printer now s w. (claim-Claimed db json law codec printer now s w).0;
    claim_well = λ printer now s w. (claim-Claimed db json law codec printer now s w).1;
    enqueue_law =
        λ new now fresh s w. (enqueue_idempotent-Enqueued db json law codec new now fresh s w).0;
    enqueue_well =
        λ new now fresh s w. (enqueue_idempotent-Enqueued db json law codec new now fresh s w).1;
  }

  -- Over bbolt and a JSON of jobs that decodes what it encodes, every method of the bolt store keeps the
  -- contract of the Store interface, from any bucket on whose values all decode to jobs filed under their own
  -- IDs: what it returns on each branch, what is held afterwards under every ID, nothing changed where a
  -- transaction fails, and the bucket still such a one.
  pub bolt_store-Refines :
      (b : B) → IsWell db json b → Refines (bolt_store db json) (IsWell db json) (view db json) b
  unfolding bolt_lawful
  bolt_store-Refines b w = (bolt_lawful, (refl, (refl, w)))

-- ===== src/Monitor/Delivery.antt =====
-- internal/monitor/delivery.go: one tick of the delivery worker, and the delay of
-- internal/monitor/scheduler.go before a retry.
pub mod Backoff
pub mod Batch
pub mod Leases
use tail_state.Prelude.{
  Bool, List, [], contains, false, if◌then◌else◌, leb, ltb, max, min, nat_eq, string_eq, true, ℕ,
  ◌*◌, ◌+◌, ◌/◌, ◌^◌, ◌||◌, ◌∷◌,
}
use tail_state.Text.{Text, text_eq, text_ordered}
use tail_state.Store.Triggers.{second}
use tail_state.Store.Outbox.{OutboxRow}
use tail_state.Store.Outbox.Finish.{delivered_claimed, release_claimed, retry_claimed_result}

abbrev pub hour : ℕ
hour = 60 * 60 * second

-- The delay of `retryDelay` before its random part.
abbrev pub base_delay : ℕ → ℕ
base_delay attempt =
    let delay = 5 * second * 2 ^ min attempt 10 in if ltb hour delay then hour else delay

-- `retryDelay`; `draw` stands for `rand.Int64N`, which takes a bound.
unfoldable pub retry_delay : (ℕ → ℕ) → ℕ → ℕ
retry_delay draw attempt = base_delay attempt + draw (max (base_delay attempt / 5) 1)

-- What sending a notification comes to: `PrepareFor` fails, or `Deliver` does. An error of the
-- transport has a message, says whether it is permanent, and may name the time to wait.
pub data Outcome : Type 0 where
  sent : Outcome
  unprepared : Text → Outcome
  refused : Text → Bool → ℕ → Outcome

-- What a worker is given: the outcome of sending an item, the clock at its bookkeeping, the random
-- draws, and `SafeDeliveryError` and `SafeDeliveryMessage`.
pub record Worker : Type 0 where
  pub send : OutboxRow → Outcome
  pub clock : OutboxRow → ℕ
  pub draw : OutboxRow → ℕ → ℕ
  pub safe_error : Text → Text
  pub safe_message : Text → Text

-- A failed item is requeued, or given up when the error is permanent or a day has passed.
unfoldable pub retry_item :
    Worker → OutboxRow → Text → Bool → ℕ → List OutboxRow → Bool × List OutboxRow
unfolding retry_delay
retry_item w item message permanent retry_after rows =
    let now = w.clock item in
    let lost = leb (item.first_attempt + 24 * hour) now || permanent in
    let delay =
      if ltb 0 retry_after then retry_after else retry_delay (w.draw item) item.attempts in
    retry_claimed_result w.safe_message (now + delay) (w.safe_error message) lost item rows

-- What the worker does with an outcome: whether the destination was contacted and the send failed,
-- and the outbox afterwards.
unfoldable pub record_outcome :
    Worker → OutboxRow → Outcome → List OutboxRow → Bool × List OutboxRow
record_outcome w item sent rows = (false, (delivered_claimed (w.clock item) item rows).1)
record_outcome w item (unprepared message) rows = (false, (retry_item w item message true 0 rows).1)
record_outcome w item (refused message permanent retry_after) rows =
    (true, (retry_item w item message permanent retry_after rows).1)

-- `deliverItemWithLease`.
unfoldable pub deliver_item : Worker → OutboxRow → List OutboxRow → Bool × List OutboxRow
deliver_item w item rows = record_outcome w item (w.send item) rows

-- What the loop did with an item.
pub data Step : Type 0 where
  released : Step
  tried : Bool → Step

-- The loop over the claimed items; `failed` has the destinations of which a send failed in this batch.
unfoldable pub deliver_items :
    Worker → List ℕ → List OutboxRow → List OutboxRow → List (OutboxRow × Step) × List OutboxRow
unfolding contains
deliver_items w failed [] rows = ([], rows)
deliver_items w failed (item ∷ items) rows =
    let held = deliver_items w failed items (release_claimed item rows).1 in
    let outcome = deliver_item w item rows in
    let later =
      deliver_items w (if outcome.0 then item.destination_id ∷ failed else failed) items
        outcome.1 in
    if contains failed item.destination_id
    then ((item, released) ∷ held.0, held.1)
    else ((item, tried outcome.0) ∷ later.0, later.1)

-- ===== src/Tests/Outbox.antt =====
-- The outbox at concrete rows.
use tail_state.Prelude.{
  Bool, Every, List, Option, [], contains, false, keep_if, nat_eq, none, refl, some, some_of,
  string_eq, true, ℕ, ◌*◌, ◌++◌, ◌∷◌, ◌≡◌,
}
use tail_state.Text.{Text, eq_text, str, text_eq, text_ordered, trim_space}
use tail_state.Store.Table.{count_where, find_row, update_where}
use tail_state.Store.Triggers.{second}
use tail_state.Store.Outbox.{
  Destination, Outbox, OutboxRow, enqueue_each, fresh_row, given_up, requeued, retry_dead_outbox,
  retryable_dead, waiting,
}
use tail_state.Store.Outbox.Claim.{
  bury_unreadable, claim_due_outbox, committed_claims, is_claimable, is_readable, lease_items,
  leased_row, open_outbox, select_due,
}
use tail_state.Store.Outbox.Order.{InOrder, waits_before}
use tail_state.Store.Outbox.Queue.{claim-keeps_order}
use tail_state.Store.Outbox.Pass.{FreshTokens, claim-disowns, owns_live}
use tail_state.Store.Outbox.Fence.{Action, act, act-once, complete}
use tail_state.Store.Outbox.Finish.{is_unclaimed, renew_claimed}
use tail_state.Monitor.Delivery.{
  Worker, deliver_item, deliver_items, record_outcome, refused, released, tried,
}
use tail_state.Monitor.Delivery.Batch.{HoldsBack, deliver_items-HoldsBack}
use tail_state.Monitor.Delivery.Leases.{Disowned, deliver_items-Disowned}
use tail_state.Store.Outbox.Enqueue.{
  IsNumbered, added_rows, enqueue_each-IsNumbered, retry_dead_outbox_again,
}

abbrev first_row : OutboxRow
first_row = record {
  id = 1;
  batch_id = none;
  destination_id = 3;
  payload = str "one";
  payload_format = str "markdown";
  status = waiting;
  attempts = 0;
  next_attempt = 10 * second;
  first_attempt = 10 * second;
  last_error = [];
  created_at = 10 * second;
  delivered_at = none;
  lease_until = none;
  lease_token = [];
}

abbrev second_row : OutboxRow
second_row = record first_row { id = 2 }

abbrev queue : List OutboxRow
queue = first_row ∷ second_row ∷ []

abbrev destination : Destination
destination = record {
  id = 3;
  name = str "ops";
  service_url_enc = [];
  enabled = true;
  deleted_at = none;
}

abbrev no_url : ℕ → Text → Bool
no_url id sealed = false

abbrev no_reason : OutboxRow → Text
no_reason o = []

abbrev tokens : ℕ → Option Text
tokens i = some (b't' ∷ i ∷ [])

abbrev claimed_rows : List OutboxRow
claimed_rows =
    leased_row (140 * second) (b't' ∷ 0 ∷ []) first_row
    ∷ leased_row (140 * second) (b't' ∷ 1 ∷ []) second_row
    ∷ []

pass :
    claim_due_outbox no_url no_reason (20 * second) 0 0 tokens (destination ∷ []) queue
    ≡ (some claimed_rows, claimed_rows)
unfolding claim_due_outbox open_outbox update_where select_due is_claimable keep_if some_of
    is_readable find_row bury_unreadable lease_items count_where committed_claims
pass = refl

queue-InOrder : InOrder queue
unfolding some_of
queue-InOrder = (refl, (refl, tt))

claim-keeps_order_example : Every (λ c. some_of (waits_before c) claimed_rows ≡ false) claimed_rows
claim-keeps_order_example =
    claim-keeps_order no_url no_reason (20 * second) 0 0 tokens (destination ∷ []) queue
      claimed_rows claimed_rows pass queue-InOrder

-- A worker whose lease has run out.
abbrev lapsed : OutboxRow
lapsed = leased_row (15 * second) (str "old") first_row

lapsed_pass :
    claim_due_outbox no_url no_reason (20 * second) 0 0 tokens (destination ∷ []) (lapsed ∷ []) ≡ (
      some (record (leased_row (140 * second) (b't' ∷ 0 ∷ []) first_row) { attempts = 2 } ∷ []),
      record (leased_row (140 * second) (b't' ∷ 0 ∷ []) first_row) { attempts = 2 } ∷ [],
    )
unfolding claim_due_outbox open_outbox update_where select_due is_claimable keep_if some_of
    is_readable find_row bury_unreadable lease_items count_where committed_claims
lapsed_pass = refl

tokens-FreshTokens : FreshTokens lapsed tokens
unfolding eq_text
tokens-FreshTokens i token h = let same : token ≡ b't' ∷ i ∷ [] = cc h in rw same refl

lapsed_idle : some_of (owns_live (20 * second) lapsed) (lapsed ∷ []) ≡ false
unfolding some_of eq_text
lapsed_idle = refl

abbrev leased_anew : List OutboxRow
leased_anew = record (leased_row (140 * second) (b't' ∷ 0 ∷ []) first_row) { attempts = 2 } ∷ []

claim-disowns_example :
    ((safe : Text → Text) (a : Action) → act safe a lapsed leased_anew ≡ (false, leased_anew))
    × ((later lease : ℕ) → renew_claimed later lease lapsed leased_anew ≡ (false, leased_anew))
claim-disowns_example =
    claim-disowns no_url no_reason (20 * second) 0 0 tokens (destination ∷ []) lapsed (lapsed ∷ [])
      leased_anew leased_anew lapsed_pass tokens-FreshTokens lapsed_idle

abbrev held_item : OutboxRow
held_item = leased_row (140 * second) (b't' ∷ 0 ∷ []) first_row

act-once_example :
    let rows' = (act (λ m. m) (complete (30 * second)) held_item claimed_rows).1 in
    ((second_act : Action) → act (λ m. m) second_act held_item rows' ≡ (false, rows'))
    × ((now lease : ℕ) → renew_claimed now lease held_item rows' ≡ (false, rows'))
act-once_example = act-once (λ m. m) (complete (30 * second)) held_item claimed_rows

-- A provider that refuses every message.
abbrev down : Worker
down = record {
  send = λ o. refused (str "unavailable") false 0;
  clock = λ o. 30 * second;
  draw = λ o bound. 0;
  safe_error = λ m. m;
  safe_message = λ m. m;
}

down_log :
    (deliver_items down [] claimed_rows claimed_rows).0
    ≡ (leased_row (140 * second) (b't' ∷ 0 ∷ []) first_row, tried true)
      ∷ (leased_row (140 * second) (b't' ∷ 1 ∷ []) second_row, released)
      ∷ []
unfolding deliver_items deliver_item record_outcome contains
down_log = refl

deliver_items-HoldsBack_example : HoldsBack (deliver_items down [] claimed_rows claimed_rows).0
deliver_items-HoldsBack_example = deliver_items-HoldsBack down [] claimed_rows claimed_rows

claimed_rows-claimed : Every (λ item. is_unclaimed item ≡ false) claimed_rows
unfolding is_unclaimed trim_space
claimed_rows-claimed = (refl, (refl, tt))

deliver_items-Disowned_example :
    Disowned claimed_rows (deliver_items down [] claimed_rows claimed_rows).1
deliver_items-Disowned_example =
    deliver_items-Disowned down [] claimed_rows claimed_rows claimed_rows-claimed

abbrev numbered_outbox : Outbox
numbered_outbox = record { rows = queue; next_id = 3 }

numbered_outbox-IsNumbered : IsNumbered numbered_outbox
unfolding some_of
numbered_outbox-IsNumbered = ((refl, (refl, tt)), refl)

-- One that is in use, and one that was deleted.
abbrev two_destinations : List Destination
two_destinations = destination ∷ record destination { id = 9; deleted_at = some 5 } ∷ []

enqueue_each-IsNumbered_example :
    IsNumbered
      (enqueue_each (str "markdown") (str "three") 50 none two_destinations numbered_outbox)
    × ((enqueue_each (str "markdown") (str "three") 50 none two_destinations numbered_outbox).rows
        ≡ queue ++ added_rows (str "markdown") (str "three") 50 none 3 two_destinations)
enqueue_each-IsNumbered_example =
    enqueue_each-IsNumbered (str "markdown") (str "three") 50 none two_destinations numbered_outbox
      numbered_outbox-IsNumbered

abbrev dead_row : OutboxRow
dead_row = record first_row { status = given_up; last_error = str "refused" }

dead_requeued :
    retry_dead_outbox (λ batch. false) (60 * second) 3 (destination ∷ []) (dead_row ∷ [])
    ≡ (requeued 1, fresh_row (60 * second) dead_row ∷ [])
unfolding retry_dead_outbox find_row retryable_dead eq_text count_where update_where keep_if
dead_requeued = refl

retry_dead_outbox_again_example :
    retry_dead_outbox
      (λ batch. false)
      (70 * second)
      3
      (destination ∷ [])
      (fresh_row (60 * second) dead_row ∷ [])
    ≡ (requeued 0, fresh_row (60 * second) dead_row ∷ [])
retry_dead_outbox_again_example =
    retry_dead_outbox_again (λ batch. false) (60 * second) (70 * second) 3 1 (destination ∷ [])
      (dead_row ∷ []) (fresh_row (60 * second) dead_row ∷ []) dead_requeued

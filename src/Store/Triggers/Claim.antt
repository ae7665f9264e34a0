-- ===== src/Store/Triggers/Claim.antt =====
-- internal/store/webhooks.go: leasing due triggers.
use tail_state.Prelude.{
  Bool, List, Option, [], if◌then◌else◌, keep_if, leb, ltb, nat_beq, nat_eq, none, some, some_of,
  string_eq, suc, take, true, zero, ℕ, ◌&&◌, ◌+◌, ◌>>=◌, ◌||◌, ◌∷◌,
}
use tail_state.Text.{Text, text_eq, text_ordered}
use tail_state.Store.Triggers.{
  Trigger, batch_size, bury, has_id, horizon_passed, is_buried, is_due, is_pending, is_processing,
  is_released, lease_expired, lease_or_default, lease_row, processing, read_row, release,
}
use tail_state.Store.Table.{count_where, find_row, update_where}

-- What a claim of one row returns: an error, no claim, or the leased trigger.
pub data Claim : Type 0 where
  failed : Claim
  refused : Claim
  claimed : Trigger → Claim

-- The two statements that open both claim transactions, for the rows that `test` selects.
unfoldable pub reclaim : (Trigger → Bool) → ℕ → List Trigger → List Trigger
unfolding update_where
reclaim test now rows =
    update_where (λ t. test t && is_buried now t) bury
      (update_where (λ t. test t && is_released now t) release rows)

-- The end of a claim: the leased row is read. A row that cannot be read fails the transaction.
unfoldable pub read_claim :
    (Text → Text) → Text → List Trigger → List Trigger → Option Trigger → Claim × List Trigger
unfolding read_row
read_claim safe token rows leased none = (failed, rows)
read_claim safe token rows leased (some t) = elim (read_row safe t) [
  | none ↦ (failed, rows)
  | some read ↦ (claimed (record read { status = processing; lease_token = token }), leased)
]

-- `ClaimWebhookTrigger`. `token` is the outcome of `newWebhookLeaseToken`.
unfoldable pub claim_webhook_trigger :
    (Text → Text) → ℕ → ℕ → ℕ → Option Text → List Trigger → Claim × List Trigger
claim_webhook_trigger safe now zero lease token rows = (refused, rows)
claim_webhook_trigger safe now id lease none rows = (failed, rows)
claim_webhook_trigger safe now id lease (some token) rows =
    let open_rows = reclaim (has_id id) now rows in
    let due = λ (t : Trigger). has_id id t && is_due now t in
    let leased = update_where due (lease_row (now + lease_or_default lease) token) open_rows in
    if nat_beq (count_where due open_rows) 0
    then (refused, open_rows)
    else read_claim safe token rows leased (find_row (has_id id) leased)

abbrev pub limit_or_default : ℕ → ℕ
limit_or_default limit =
    let limit' : ℕ = if nat_beq limit 0 then batch_size else limit in
    if ltb 64 limit' then 64 else limit'

-- The loop of `ClaimWebhookTriggers`: each selected row is leased under a token of its own, and
-- a token that cannot be made fails the transaction.
unfoldable pub lease_selected :
    ℕ → (ℕ → Option Text) → ℕ → List Trigger → List Trigger → Option (List Trigger × List Trigger)
unfolding update_where
lease_selected until tokens i [] rows = some ([], rows)
lease_selected until tokens i (t ∷ selected) rows = elim (tokens i) [
  | none ↦ none
  | some token ↦
      let leased =
        update_where (λ r. has_id t.id r && is_pending r.status) (lease_row until token) rows in
      elim (lease_selected until tokens (suc i) selected leased) [
        | none ↦ none
        | some (claims, rows') ↦ some (lease_row until token t ∷ claims, rows')
      ]
]

-- The selected rows as they are read, where each can be.
unfoldable pub read_rows : (Text → Text) → List Trigger → Option (List Trigger)
unfolding read_row
read_rows safe [] = some []
read_rows safe (t ∷ rows) =
    let rest = read_rows safe rows in
    elim (read_row safe t) [
      | none ↦ none
      | some read ↦ rest >>= (λ triggers. some (read ∷ triggers))
    ]

-- The transaction commits what its loop made of the table, or leaves the table as it was.
unfoldable pub committed :
    List Trigger → Option (List Trigger × List Trigger) → Option (List Trigger) × List Trigger
committed rows none = (none, rows)
committed rows (some (claims, rows')) = (some claims, rows')

-- `ClaimWebhookTriggers`; `none` is an error.
unfoldable pub claim_webhook_triggers :
    (Text → Text)
    → ℕ
    → ℕ
    → ℕ
    → (ℕ → Option Text)
    → List Trigger
    → Option (List Trigger) × List Trigger
claim_webhook_triggers safe now limit lease tokens rows =
    let open_rows = reclaim (λ _. true) now rows in
    let selected = take (limit_or_default limit) (keep_if (is_due now) open_rows) in
    committed rows (
      read_rows safe selected
      >>= (λ triggers. lease_selected (now + lease_or_default lease) tokens 0 triggers open_rows))

-- `HasDueWebhookTriggers`.
unfoldable pub has_due_webhook_triggers : ℕ → List Trigger → Bool
unfolding some_of
has_due_webhook_triggers now rows =
    some_of
      (λ t.
        (is_pending t.status && (leb t.next_attempt now || horizon_passed now t))
        || (is_processing t.status && lease_expired now t))
      rows

-- ===== src/Store/Outbox/Claim.antt =====
-- internal/store/outbox.go: `ClaimDueOutbox`.
use tail_state.Prelude.{
  Bool, List, Option, [], every_of, if◌then◌else◌, is_empty, keep_if, leb, ltb, nat_beq, nat_eq,
  none, not, some, some_of, string_eq, suc, take, true, ℕ, ◌&&◌, ◌+◌, ◌||◌, ◌∷◌,
}
use tail_state.Text.{Text, str, text_eq, text_ordered}
use tail_state.Store.Table.{count_where, find_row, update_where}
use tail_state.Store.Triggers.{second}
use tail_state.Store.Outbox.{
  Destination, OutboxRow, given_up, goes_to, has_outbox_id, is_active, is_sending, is_waiting,
  outbox_lease, outbox_retry_window, sending, waiting,
}
use tail_state.Text.Truncate.{truncate}

abbrev pub claim_limit : ℕ → ℕ
claim_limit limit =
    let limit' : ℕ = if nat_beq limit 0 then 10 else limit in if ltb 64 limit' then 64 else limit'

-- `status='processing' AND (lease_until IS NULL OR lease_until<=?)`
abbrev pub is_abandoned : ℕ → OutboxRow → Bool
is_abandoned now o =
    is_sending o.status && elim o.lease_until [ none ↦ true | some until ↦ leb until now ]

abbrev pub requeued_row : OutboxRow → OutboxRow
requeued_row o = record o { status = waiting; lease_until = none; lease_token = [] }

-- `status='pending' AND first_attempt<=?`
abbrev pub is_expired : ℕ → OutboxRow → Bool
is_expired now o = is_waiting o.status && leb (o.first_attempt + outbox_retry_window) now

-- `TRIM(last_error)` strips the spaces.
unfoldable pub expired_row : ℕ → OutboxRow → OutboxRow
unfolding every_of
expired_row now o = record o {
  status = given_up;
  next_attempt = now;
  lease_until = none;
  lease_token = [];
  last_error =
      if every_of (λ c. nat_beq c 32) o.last_error
      then str "delivery retry window expired"
      else o.last_error;
}

-- The two statements that open the transaction.
unfoldable pub open_outbox : ℕ → List OutboxRow → List OutboxRow
open_outbox now rows =
    update_where (is_expired now) (expired_row now)
      (update_where (is_abandoned now) requeued_row rows)

-- The row `p` holds a younger row `o` of its destination back.
abbrev pub holds_back : ℕ → OutboxRow → OutboxRow → Bool
holds_back now o p =
    nat_beq p.destination_id o.destination_id
    && ltb p.id o.id
    && (is_sending p.status || (is_waiting p.status && ltb now p.next_attempt))

-- The WHERE clause of the query.
unfoldable pub is_claimable : ℕ → List Destination → List OutboxRow → OutboxRow → Bool
is_claimable now destinations rows o =
    is_waiting o.status
    && leb o.next_attempt now
    && some_of (λ d. goes_to o d && is_active d) destinations
    && not (some_of (holds_back now o) rows)

-- The rows that the query returns.
unfoldable pub select_due : ℕ → ℕ → List Destination → List OutboxRow → List OutboxRow
select_due now limit destinations rows =
    take limit (keep_if (is_claimable now destinations rows) rows)

-- Whether `readOutboxItem` can decrypt the URL of the row's destination; `opens` stands for
-- `box.Open` under the binding of the destination.
unfoldable pub is_readable : (ℕ → Text → Bool) → List Destination → OutboxRow → Bool
is_readable opens destinations o = elim (find_row (goes_to o) destinations) [
  | none ↦ true
  | some d ↦ is_empty d.service_url_enc || opens d.id d.service_url_enc
]

abbrev pub is_still_waiting : ℕ → OutboxRow → Bool
is_still_waiting id o = has_outbox_id id o && is_waiting o.status

abbrev pub unreadable_row : ℕ → Text → OutboxRow → OutboxRow
unreadable_row now reason o = record o {
  status = given_up;
  next_attempt = now;
  last_error = reason;
  lease_until = none;
  lease_token = [];
}

-- The rows that cannot be sent become dead letters; `reason` stands for the message that names the
-- destination.
unfoldable pub bury_unreadable :
    ℕ → (OutboxRow → Text) → List OutboxRow → List OutboxRow → List OutboxRow
bury_unreadable now reason [] rows = rows
bury_unreadable now reason (o ∷ unreadable) rows =
    bury_unreadable now reason unreadable
      (update_where (is_still_waiting o.id) (unreadable_row now (truncate (reason o) 500)) rows)

abbrev pub leased_row : ℕ → Text → OutboxRow → OutboxRow
leased_row until token o = record o {
  status = sending;
  attempts = o.attempts + 1;
  lease_until = some until;
  lease_token = token;
}

-- The loop that leases the items, each under a token of its own; a token that cannot be made fails
-- the transaction.
unfoldable pub lease_items :
    ℕ
    → (ℕ → Option Text)
    → ℕ
    → List OutboxRow
    → List OutboxRow
    → Option (List OutboxRow × List OutboxRow)
lease_items until tokens i [] rows = some ([], rows)
lease_items until tokens i (o ∷ items) rows = elim (tokens i) [
  | none ↦ none
  | some token ↦
      let test = is_still_waiting o.id in
      let changed = nat_beq (count_where test rows) 1 in
      elim (lease_items until tokens (suc i) items
        (update_where test (leased_row until token) rows)) [
          | none ↦ none
          | some (claims, rows') ↦
              some ((if changed then leased_row until token o ∷ claims else claims), rows')
        ]
]

unfoldable pub committed_claims :
    List OutboxRow
    → Option (List OutboxRow × List OutboxRow)
    → Option (List OutboxRow) × List OutboxRow
committed_claims rows none = (none, rows)
committed_claims rows (some (claims, rows')) = (some claims, rows')

-- `ClaimDueOutbox`; `none` is an error, which rolls back.
unfoldable pub claim_due_outbox :
    (ℕ → Text → Bool)
    → (OutboxRow → Text)
    → ℕ
    → ℕ
    → ℕ
    → (ℕ → Option Text)
    → List Destination
    → List OutboxRow
    → Option (List OutboxRow) × List OutboxRow
claim_due_outbox opens reason now limit lease tokens destinations rows =
    let lease' : ℕ = if ltb lease second then outbox_lease else lease in
    let open_rows = open_outbox now rows in
    let selected = select_due now (claim_limit limit) destinations open_rows in
    let readable = is_readable opens destinations in
    let kept = bury_unreadable now reason (keep_if (λ o. not (readable o)) selected) open_rows in
    committed_claims rows (lease_items (now + lease') tokens 0 (keep_if readable selected) kept)

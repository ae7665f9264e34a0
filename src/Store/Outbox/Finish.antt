-- ===== src/Store/Outbox/Finish.antt =====
-- internal/store/outbox.go: finishing, releasing and renewing a claimed notification. Each returns
-- whether the lease token still owned the row.
use tail_state.Prelude.{
  Bool, List, [], false, if◌then◌else◌, is_empty, ltb, nat_beq, nat_eq, none, some, string_eq, ℕ,
  ◌&&◌, ◌+◌, ◌-◌, ◌||◌,
}
use tail_state.Text.{Text, eq_text, text_eq, text_ordered, trim_space}
use tail_state.Store.Table.{count_where, update_where}
use tail_state.Store.Triggers.{second}
use tail_state.Store.Outbox.{
  OutboxRow, delivered, given_up, has_outbox_id, is_sending, outbox_lease, waiting,
}
use tail_state.Text.Truncate.{truncate}

-- `item.ID <= 0 || strings.TrimSpace(item.LeaseToken) == ""`
unfoldable pub is_unclaimed : OutboxRow → Bool
unfolding trim_space
is_unclaimed item = nat_beq item.id 0 || is_empty (trim_space item.lease_token)

-- `WHERE id=? AND status='processing' AND lease_token=?`
abbrev pub owns : OutboxRow → OutboxRow → Bool
owns item o =
    has_outbox_id item.id o && (is_sending o.status && eq_text o.lease_token item.lease_token)

-- The UPDATE of a claimed row and whether it changed one.
unfoldable pub update_claimed :
    OutboxRow → (OutboxRow → OutboxRow) → List OutboxRow → Bool × List OutboxRow
update_claimed item set rows =
    if is_unclaimed item
    then (false, rows)
    else (nat_beq (count_where (owns item) rows) 1, update_where (owns item) set rows)

abbrev pub delivered_row : ℕ → OutboxRow → OutboxRow
delivered_row now o = record o {
  status = delivered;
  delivered_at = some now;
  last_error = [];
  lease_until = none;
  lease_token = [];
}

-- `DeliveredClaimedResult`.
unfoldable pub delivered_claimed : ℕ → OutboxRow → List OutboxRow → Bool × List OutboxRow
delivered_claimed now item rows = update_claimed item (delivered_row now) rows

abbrev pub retried_row : ℕ → Text → Bool → OutboxRow → OutboxRow
retried_row next message lost o = record o {
  status = if lost then given_up else waiting;
  next_attempt = next;
  last_error = message;
  lease_until = none;
  lease_token = [];
}

-- `RetryClaimedResult`; `safe` stands for `notify.SafeDeliveryMessage`.
unfoldable pub retry_claimed_result :
    (Text → Text) → ℕ → Text → Bool → OutboxRow → List OutboxRow → Bool × List OutboxRow
retry_claimed_result safe next message lost item rows =
    update_claimed item (retried_row next (truncate (safe message) 500) lost) rows

abbrev pub released_row : OutboxRow → OutboxRow
released_row o = record o {
  status = waiting;
  attempts = o.attempts - 1;
  lease_until = none;
  lease_token = [];
}

-- `ReleaseClaimed`; `MAX(attempts-1,0)` is subtraction on natural numbers.
unfoldable pub release_claimed : OutboxRow → List OutboxRow → Bool × List OutboxRow
release_claimed item rows = update_claimed item released_row rows

abbrev pub renewed_row : ℕ → OutboxRow → OutboxRow
renewed_row until o = record o { lease_until = some until }

-- `RenewClaimed`.
unfoldable pub renew_claimed : ℕ → ℕ → OutboxRow → List OutboxRow → Bool × List OutboxRow
renew_claimed now lease item rows =
    let lease' : ℕ = if ltb lease second then outbox_lease else lease in
    update_claimed item (renewed_row (now + lease')) rows

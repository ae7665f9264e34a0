-- ===== src/Store/Triggers/Finish.antt =====
-- internal/store/webhooks.go: completing and retrying what was claimed.
use tail_state.Prelude.{
  Bool, List, [], contains, if◌then◌else◌, is_empty, leb, nat_beq, nat_eq, none, some, string_eq, ℕ,
  ◌&&◌, ◌+◌, ◌||◌, ◌∷◌,
}
use tail_state.Text.{Text, eq_text, text_eq, text_ordered, trim_space}
use tail_state.Text.Truncate.{truncate}
use tail_state.Store.Triggers.{
  Trigger, dead, has_id, is_processing, pending, processed, retry_window, window_expired,
}
use tail_state.Store.Table.{find_row, update_where}

-- `validWebhookClaims`: a claim without an id or a token is dropped, and so is a repeated id.
unfoldable pub valid_claims : List ℕ → List Trigger → List Trigger
unfolding contains trim_space
valid_claims seen [] = []
valid_claims seen (claim ∷ claims) =
    let rest = valid_claims seen claims in
    let rest' = valid_claims (claim.id ∷ seen) claims in
    if nat_beq claim.id 0 || is_empty (trim_space claim.lease_token) || contains seen claim.id
    then rest
    else claim ∷ rest'

-- `WHERE id=? AND status='processing' AND lease_token=?`
abbrev pub holds_lease : Trigger → Trigger → Bool
holds_lease claim t =
    has_id claim.id t && (is_processing t.status && eq_text t.lease_token claim.lease_token)

-- The row of a completed claim.
abbrev pub complete_row : ℕ → Trigger → Trigger
complete_row now t = record t {
  status = processed;
  processed_at = some now;
  lease_until = none;
  lease_token = [];
  last_error = [];
}

unfoldable pub complete_each : ℕ → List Trigger → List Trigger → List Trigger
complete_each now [] rows = rows
complete_each now (claim ∷ claims) rows =
    complete_each now claims (update_where (holds_lease claim) (complete_row now) rows)

-- `CompleteClaimedWebhookTriggers`.
unfoldable pub complete_claimed : ℕ → List Trigger → List Trigger → List Trigger
complete_claimed now claims rows = complete_each now (valid_claims [] claims) rows

-- The row that a failed attempt is left with.
unfoldable pub retry_row : ℕ → ℕ → Text → ℕ → Trigger → Trigger
retry_row now next message received_at t =
    let expired = leb (received_at + retry_window) now in
    record t {
      status = if expired then dead else pending;
      next_attempt = if expired then now else next;
      lease_until = none;
      lease_token = [];
      last_error = if expired && is_empty message then window_expired else message;
    }

unfoldable pub retry_each : ℕ → ℕ → Text → List Trigger → List Trigger → List Trigger
retry_each now next message [] rows = rows
retry_each now next message (claim ∷ claims) rows =
    retry_each now next message claims (elim (find_row (has_id claim.id) rows) [
      | none ↦ rows
      | some found ↦
          update_where (holds_lease claim) (retry_row now next message found.received_at) rows
    ])

-- `RetryClaimedWebhookTriggers`; `safe` stands for `notify.SafeDeliveryMessage`.
unfoldable pub retry_claimed :
    (Text → Text) → ℕ → ℕ → Text → List Trigger → List Trigger → List Trigger
retry_claimed safe now next message claims rows =
    let message' = truncate (trim_space message) 500 in
    let message'' = if is_empty message' then message' else safe message' in
    retry_each now next message'' (valid_claims [] claims) rows

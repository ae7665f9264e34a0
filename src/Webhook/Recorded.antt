-- ===== src/Webhook/Recorded.antt =====
-- internal/webhook/webhook.go and internal/store/webhooks.go: what `RecordWebhookTrigger` makes of a
-- delivery that `Verify` accepts.
use tail_state.Prelude.{Bool, Option, false, leb, length, nat_eq, none, some, string_eq, true, ◌≡◌}
use tail_state.Text.{Text, text_eq}
use tail_state.Store.Triggers.{Ledger, Trigger}
use tail_state.Store.Triggers.Readable.{all_readable}
use tail_state.Model.Encoding.{quote}

-- Whether the call returned a trigger.
abbrev pub is_recorded : Option (Trigger × Bool) → Bool
is_recorded none = false
is_recorded (some result) = true

-- The call returns a trigger exactly if the test holds, and no row of the ledger is damaged.
abbrev IsRecorded : Bool → Option (Trigger × Bool) × Ledger → Type 0
IsRecorded test run = (is_recorded run.0 ≡ test) × (all_readable run.1.rows ≡ true)

abbrev IsShort : Text → Type 0
IsShort name = leb (length (quote name)) 20 ≡ true

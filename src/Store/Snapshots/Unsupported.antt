-- ===== src/Store/Snapshots/Unsupported.antt =====
-- `unsupportedCollector` of internal/store/snapshots.go: a response that is not supported.
use tail_state.Prelude.{
  Bool, Option, [], drop, false, if◌then◌else◌, is_empty, length, nat_eq, none, not, some,
  string_eq, take, true, ℕ, ◌&&◌, ◌++◌, ◌+◌, ◌-◌, ◌==◌, ◌||◌, ◌∷◌,
}
use tail_state.Text.{Text, eq_text, has_prefix, str, text_eq, text_ordered, trim_space}
use tail_state.Store.Table.{update_where}
use tail_state.Store.Snapshots.{Apply, Collected, CollectorHealth, CollectorState, state_of}
use tail_state.Model.Diff.Paths.{has_suffix}
use tail_state.Store.Snapshots.States.{
  new_state, or_text, put_state, state_row, unsupported_confirmation_message,
  unsupported_demotion_interval, unsupported_retry_interval,
}

abbrev trim_prefix : Text → Text → Text
trim_prefix s prefix = if has_prefix s prefix then drop (length prefix) s else s

abbrev trim_suffix : Text → Text → Text
trim_suffix s suffix = if has_suffix s suffix then take (length s - length suffix) s else s

-- `demotionDetail`.
unfoldable pub demotion_detail : Text → Text
unfolding has_prefix has_suffix eq_text
demotion_detail reason =
    let cause = trim_suffix (trim_prefix reason (str "unsupported (")) (str ")") in
    let shown = if cause == reason || is_empty cause then str "HTTP 403/404" else cause in
    shown
    ++ str
        " on two consecutive polls; changes are not detected until it answers again, rechecked every 6 hours"

-- A response that is not supported where the collector has a baseline and none was pending.
unfoldable pub is_first_refusal : Option CollectorState → Bool
unfolding eq_text
is_first_refusal none = false
is_first_refusal (some row) =
    row.supported && row.baseline && not (row.last_error == unsupported_confirmation_message)

abbrev pub awaits_confirmation : ℕ → CollectorState → CollectorState
awaits_confirmation now row = record row {
  supported = true;
  last_error = unsupported_confirmation_message;
  failure_count = 1;
  next_poll = some (now + unsupported_retry_interval);
  partial = false;
  partial_error_count = 0;
}

-- The demotion that a second response, or one without a baseline, brings.
abbrev pub demoted : ℕ → Text → Bool → CollectorState → CollectorState
demoted now reason notified row = record row {
  supported = false;
  last_error = reason;
  next_poll = some (now + unsupported_demotion_interval);
  partial = false;
  unhealthy_notified = notified;
}

-- A baselined collector that was not reported yet is reported now.
abbrev pub is_reported_now : Option CollectorState → Bool
is_reported_now none = false
is_reported_now (some row) = row.supported && row.baseline && not row.unhealthy_notified

abbrev pub was_notified : Option CollectorState → Bool
was_notified none = false
was_notified (some row) = row.unhealthy_notified

unfoldable pub demote_collector : ℕ → ℕ → Collected → Option CollectorState → Apply → Apply
unfolding put_state trim_space demotion_detail
demote_collector generation now result state a =
    let reason = or_text (trim_space result.unsupported_reason) (str "unsupported") in
    let reported = is_reported_now state in
    let notified = reported || was_notified state in
    let health : CollectorHealth = record {
      collector = result.collector;
      reason = str "unsupported";
      detail = demotion_detail reason;
    } in
    record a {
      unhealthy = if reported then a.unhealthy ++ (health ∷ []) else a.unhealthy;
      states =
          put_state generation result.collector
            (demoted now reason notified (new_state generation result.collector))
            (demoted now reason notified) a.states;
    }

-- `unsupportedCollector`.
unfoldable pub unsupported_collector : ℕ → ℕ → Collected → Apply → Apply
unfolding state_row is_first_refusal update_where demote_collector eq_text
unsupported_collector generation now result a =
    let state = state_row generation result.collector a.states in
    if is_first_refusal state
    then record a {
      states =
          update_where (state_of generation result.collector) (awaits_confirmation now) a.states;
    }
    else demote_collector generation now result state a

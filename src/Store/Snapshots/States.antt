-- ===== src/Store/Snapshots/States.antt =====
-- The rows of `collector_state` that internal/store/snapshots.go writes for one result of a poll.
use tail_state.Prelude.{
  Bool, Dict, List, Option, [], false, if◌then◌else◌, insert, is_empty, ltb, nat_eq, none, not,
  some, some_of, string_eq, true, ℕ, ◌*◌, ◌++◌, ◌+◌, ◌>>=◌, ◌∷◌,
}
use tail_state.Text.{
  Text, digits, eq_text, has_prefix, number_text, str, text_eq, text_ordered, trim_space,
}
use tail_state.Store.Table.{find_row, update_where}
use tail_state.Store.Snapshots.{Apply, Collected, CollectorHealth, CollectorState, state_of}

abbrev pub unsupported_confirmation_message : Text
unsupported_confirmation_message = str "unsupported response pending confirmation"

-- Nanoseconds.
abbrev pub unsupported_retry_interval : ℕ
unsupported_retry_interval = 5 * 60 * 1000000000

abbrev pub unsupported_demotion_interval : ℕ
unsupported_demotion_interval = 6 * 3600 * 1000000000

abbrev pub removal_guard_prefix : Text
removal_guard_prefix = str "possible mass removal guarded"

-- `INSERT … ON CONFLICT(generation,collector) DO UPDATE SET …`
unfoldable pub put_state :
    ℕ
    → Text
    → CollectorState
    → (CollectorState → CollectorState)
    → List CollectorState
    → List CollectorState
unfolding some_of update_where eq_text
put_state generation collector fresh set states =
    if some_of (state_of generation collector) states
    then update_where (state_of generation collector) set states
    else states ++ (fresh ∷ [])

unfoldable pub state_row : ℕ → Text → List CollectorState → Option CollectorState
unfolding find_row eq_text
state_row generation collector states = find_row (state_of generation collector) states

abbrev pub baseline_of : Option CollectorState → Bool
baseline_of none = false
baseline_of (some row) = row.baseline

abbrev pub last_error_of : Option CollectorState → Text
last_error_of none = []
last_error_of (some row) = row.last_error

abbrev pub failures_of : Option CollectorState → ℕ
failures_of none = 0
failures_of (some row) = row.failure_count

-- The columns that an INSERT leaves at their defaults are empty.
abbrev pub new_state : ℕ → Text → CollectorState
new_state generation collector = record {
  generation = generation;
  collector = collector;
  supported = true;
  baseline = false;
  last_success = none;
  last_error = [];
  failure_count = 0;
  unhealthy_notified = false;
  next_poll = none;
  partial = false;
  partial_error_count = 0;
}

-- `recordCollectorSuccess`.
abbrev pub succeeded : ℕ → CollectorState → CollectorState
succeeded fetched row = record row {
  supported = true;
  baseline = true;
  last_success = some fetched;
  last_error = [];
  failure_count = 0;
  unhealthy_notified = false;
  partial = false;
  partial_error_count = 0;
}

unfoldable pub record_collector_success : ℕ → Text → ℕ → Apply → Apply
unfolding put_state
record_collector_success generation collector fetched a = record a {
  states =
      put_state generation collector (succeeded fetched (new_state generation collector))
        (succeeded fetched) a.states;
}

abbrev pub or_text : Text → Text → Text
or_text text default = if is_empty text then default else text

-- `recordCollectorPartial`.
unfoldable pub record_collector_partial : ℕ → Collected → ℕ → Apply → Apply
unfolding put_state trim_space
record_collector_partial generation result fetched a =
    let message =
      or_text (trim_space result.partial_error) (str "collector response was partial") in
    let errors = if ltb result.partial_error_count 1 then 1 else result.partial_error_count in
    let set : CollectorState → CollectorState = λ row. record row {
      supported = true;
      baseline = true;
      last_success = some fetched;
      last_error = message;
      partial = true;
      partial_error_count = errors;
    } in
    record a {
      states =
          put_state generation result.collector
            (record (set (new_state generation result.collector)) { failure_count = 1 }) set
            a.states;
    }

-- `recordRemovalGuard`.
unfoldable pub record_removal_guard : ℕ → Text → Bool → ℕ → ℕ → ℕ → Apply → Apply
unfolding put_state state_row has_prefix digits insert eq_text
record_removal_guard generation collector baseline missing present fetched a =
    let row = state_row generation collector a.states in
    let message =
      removal_guard_prefix
      ++ str " ("
      ++ number_text missing
      ++ str " missing, "
      ++ number_text present
      ++ str " present)" in
    let detail =
      number_text missing
      ++ str " of "
      ++ number_text (missing + present)
      ++ str
          " resources missing from a complete response; removals are reported only if they stay missing" in
    let begins = not (has_prefix (last_error_of row) removal_guard_prefix) in
    let health : CollectorHealth = record {
      collector = collector;
      reason = str "possible mass removal";
      detail = detail;
    } in
    let since : Dict Text (ℕ × ℕ) = elim (row >>= (λ r. r.last_success)) [
      | none ↦ a.guard_since
      | some success ↦ insert a.guard_since collector (generation, success)
    ] in
    let set : CollectorState → CollectorState = λ r. record r {
      supported = true;
      last_success = some fetched;
      last_error = message;
      failure_count = r.failure_count + 1;
      unhealthy_notified = false;
      partial = false;
      partial_error_count = 0;
    } in
    record a {
      unhealthy = if begins then a.unhealthy ++ (health ∷ []) else a.unhealthy;
      guard_since = if begins then since else a.guard_since;
      states =
          put_state generation collector
            (record (set (new_state generation collector)) {
              baseline = baseline;
              failure_count = 1;
            })
            set a.states;
    }

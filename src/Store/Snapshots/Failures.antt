-- ===== src/Store/Snapshots/Failures.antt =====
-- `recordCollectorFailuresTx` of internal/store/snapshots.go: the collectors whose poll failed.
use tail_state.Prelude.{
  Bool, List, Option, [], false, if◌then◌else◌, leb, nat_beq, nat_eq, none, not, some, string_eq,
  true, ℕ, ◌&&◌, ◌+◌, ◌||◌, ◌∷◌,
}
use tail_state.Text.{Text, text_eq, text_ordered}
use tail_state.Store.Snapshots.{CollectorHealth, CollectorState}
use tail_state.Store.Snapshots.States.{failures_of, new_state, put_state, state_row}
use tail_state.Store.Snapshots.Unsupported.{was_notified}

pub record CollectorFailure : Type 0 where
  pub collector : Text
  pub reason : Text
  pub message : Text

abbrev pub failure_threshold : ℕ
failure_threshold = 3

-- One failure: whether it is reported, and the row that it leaves.
unfoldable pub record_failure_of :
    ℕ → CollectorFailure → List CollectorState → Bool × List CollectorState
unfolding state_row put_state
record_failure_of generation failure states =
    let row = state_row generation failure.collector states in
    let count = failures_of row + 1 in
    let reported = leb failure_threshold count && not (was_notified row) in
    let set : CollectorState → CollectorState = λ r. record r {
      supported = true;
      last_error = failure.message;
      failure_count = count;
      unhealthy_notified = reported || was_notified row;
      partial = false;
      partial_error_count = 0;
    } in
    (
      reported,
      put_state generation failure.collector (set (new_state generation failure.collector)) set
          states,
    )

-- The loop over the failures, with the collectors that are reported.
unfoldable pub record_failures :
    ℕ → List CollectorFailure → List CollectorState → List CollectorHealth × List CollectorState
unfolding record_failure_of
record_failures generation [] states = ([], states)
record_failures generation (failure ∷ failures) states =
    let (reported, next) = record_failure_of generation failure states in
    let rest = record_failures generation failures next in
    let health : CollectorHealth = record {
      collector = failure.collector;
      reason = failure.reason;
      detail = [];
    } in
    (if reported then health ∷ rest.0 else rest.0, rest.1)

-- `recordCollectorFailuresTx`: nothing is written for a generation that is not the active one.
unfoldable pub record_collector_failures :
    ℕ
    → ℕ
    → List CollectorFailure
    → List CollectorState
    → Option (List CollectorHealth) × List CollectorState
unfolding record_failures
record_collector_failures active generation failures states =
    let result = record_failures generation failures states in
    if nat_beq active generation then (some result.0, result.1) else (none, states)

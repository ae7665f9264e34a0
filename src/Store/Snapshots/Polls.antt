-- ===== src/Store/Snapshots/Polls.antt =====
-- internal/store/snapshots.go: polls one after the other, whose complete responses hold the same ids.
pub mod Gone
use mathlib.Core.Path.{subst}
use tail_state.Prelude.{
  Bool, List, Option, [], every_of, false, nat_eq, some, string_eq, true, ℕ, ◌<◌, ◌==◌, ◌∷◌, ◌≡◌,
}
use tail_state.Text.{Text, has_prefix, str, text_eq, text_ordered}
use tail_state.Model.{Json}
use tail_state.Model.Encoding.{after}
use tail_state.Store.Snapshots.{Apply, Collected, CollectorState, Limits, Snapshot}
use tail_state.Store.Snapshots.States.{baseline_of, failures_of, removal_guard_prefix, state_row}
use tail_state.Store.Snapshots.Removal.{absent_rows, ids_of, is_guarded, seen_count, was_missing}
use tail_state.Store.Snapshots.Batch.{
  apply_collector, apply_results, settle, shared_users_absorption,
}
use tail_state.Store.Snapshots.Upsert.{upsert_all}
use tail_state.Store.Snapshots.Absent.{contains-ids_of, upsert_all-Keeps}
use tail_state.Store.Snapshots.Settle.{guard-step, open-step}

module _ (decode : Text → Option Json) (digest : Text → Text) (generation : ℕ)
    (limits : Limits) where
  -- Polls of one collector at their times, each in a batch of its own.
  unfoldable pub poll_all : List (ℕ × Collected) → Apply → Apply
  unfolding apply_results
  poll_all [] a = a
  poll_all ((now, result) ∷ polls) a =
      poll_all polls (apply_results decode digest generation now limits (result ∷ []) a)

  -- A usable, complete response for the collector with these ids.
  abbrev pub Holds : Text → List Text → Collected → Type 0
  Holds collector seen result =
      (result.failed ≡ false)
      × (result.unsupported ≡ false)
      × (result.partial ≡ false)
      × (result.collector ≡ collector)
      × (ids_of result.resources ≡ seen)

module _ (generation : ℕ) (collector : Text) (seen : List Text) where
  abbrev pub omitted : Apply → List Snapshot
  omitted a = absent_rows generation collector seen a.snapshots

  abbrev pub state_in : Apply → Option CollectorState
  state_in a = state_row generation collector a.states

  abbrev pub is_held : List Snapshot → Option CollectorState → Bool
  is_held rows state = is_guarded state rows (seen_count seen)

  -- The state of a collector whose removals are held back.
  abbrev pub IsHeld : ℕ → Option CollectorState → Type 0
  IsHeld least state =
      (row : CollectorState) × (state ≡ some row)
      × ((has_prefix row.last_error removal_guard_prefix ≡ true) × (least < row.failure_count))

  -- What a poll does to the omitted rows, by whether it is held back.
  abbrev pub StepOn : List Snapshot → Option CollectorState → Apply → Type 0
  StepOn rows state after =
      (is_held rows state ≡ true
        → (omitted after ≡ rows) × IsHeld (failures_of state) (state_in after))
      × (is_held rows state ≡ false
          → (every_of was_missing (omitted after) ≡ true)
            × (every_of was_missing rows ≡ true → omitted after ≡ []))

  abbrev pub Step : Apply → Apply → Type 0
  Step a after = StepOn (omitted a) (state_in a) after

apply_collector-Step :
    (decode : Text → Option Json) (digest : Text → Text) (generation now : ℕ) (limits : Limits)
    (result : Collected) (a : Apply)
    → result.partial ≡ false
    → Step generation result.collector
        (ids_of result.resources)
        a
        (apply_collector decode digest generation now limits result a)
unfolding apply_collector shared_users_absorption
apply_collector-Step decode digest generation now limits result a complete =
    let row = state_row generation result.collector a.states in
    let baseline = baseline_of row in
    let users = result.collector == str "users" in
    let (absorb, noted) = shared_users_absorption generation result.collector baseline a in
    let stored =
      upsert_all decode digest generation now limits result.collector baseline
        (result.collector == str "device_details") absorb result.resources noted in
    let (rows, states) =
      upsert_all-Keeps generation result.collector (ids_of result.resources) decode digest now
        limits baseline (result.collector == str "device_details") absorb result.resources noted
        (contains-ids_of result.resources) in
    from_stored baseline stored rows states
  where
    -- The upserts before it leave the omitted rows and the states.
    from_stored :
        (baseline : Bool) (b : Apply)
        → absent_rows generation result.collector (ids_of result.resources) b.snapshots
          ≡ absent_rows generation result.collector (ids_of result.resources) a.snapshots
        → b.states ≡ a.states
        → Step generation result.collector
            (ids_of result.resources)
            a
            (settle generation now result baseline b)
    from_stored baseline b rows states =
        subst
          (λ r.
            StepOn generation result.collector (ids_of result.resources) r
              (state_row generation result.collector a.states)
              (settle generation now result baseline b))
          rows
          (subst
            (λ t.
              StepOn generation result.collector (ids_of result.resources)
                (absent_rows generation result.collector (ids_of result.resources) b.snapshots)
                (state_row generation result.collector t) (settle generation now result baseline b))
            states
            (
              guard-step generation now result complete baseline b,
              open-step generation now result complete baseline b,
            ))

pub poll-Step :
    (decode : Text → Option Json) (digest : Text → Text) (generation now : ℕ) (limits : Limits)
    (collector : Text) (seen : List Text) (result : Collected) (a : Apply)
    → Holds decode digest generation limits collector seen result
    → Step generation collector seen a
        (apply_results decode digest generation now limits (result ∷ []) a)
unfolding apply_results
poll-Step decode digest generation now limits collector seen result a
      (ok, supported, complete, c, s) =
    rw (ok, supported)
      (subst
        (λ d.
          Step generation d seen a (apply_collector decode digest generation now limits result a))
        c
        (subst
          (λ ids.
            Step generation result.collector ids a
              (apply_collector decode digest generation now limits result a))
          s (apply_collector-Step decode digest generation now limits result a complete)))

-- ===== src/Store/Snapshots/Batch.antt =====
-- The results of one poll: `batchApply.collector` and the loop of `ApplyBatchWithOptions` of
-- internal/store/snapshots.go.
use tail_state.Prelude.{
  Bool, List, Option, [], false, if◌then◌else◌, ltb, nat_beq, nat_eq, none, not, remove, some,
  some_of, string_eq, ℕ, ◌&&◌, ◌==◌, ◌∷◌,
}
use tail_state.Text.{Text, eq_text, str, text_eq, text_ordered}
use tail_state.Model.{Json}
use tail_state.Store.Table.{count_where}
use tail_state.Store.Snapshots.{Apply, Collected, CollectorState, Limits}
use tail_state.Store.Snapshots.States.{
  baseline_of, record_collector_partial, record_collector_success, record_removal_guard, state_row,
}
use tail_state.Store.Snapshots.Removal.{ids_of, mass_removal_guard, reconcile_missing, seen_count}
use tail_state.Store.Snapshots.Upsert.{upsert_all}
use tail_state.Store.Snapshots.Unsupported.{unsupported_collector}

-- `fetchedAt`.
abbrev pub fetched_at : ℕ → Collected → ℕ
fetched_at now result = elim result.observed_at [
  | none ↦ now
  | some observed ↦ if ltb now observed then now else observed
]

-- `sharedUsersAbsorption`.
unfoldable pub shared_users_absorption : ℕ → Text → Bool → Apply → Bool × Apply
unfolding eq_text
shared_users_absorption generation collector baseline a =
    let seen_before : Bool = elim a.shared_users [ none ↦ false | some g ↦ nat_beq g generation ] in
    let users = collector == str "users" in
    (
      users && baseline && not seen_before,
      record a { shared_users = if users then some generation else a.shared_users },
    )

-- The end of `collector`: the omitted resources, and the state that the result leaves.
unfoldable pub settle : ℕ → ℕ → Collected → Bool → Apply → Apply
unfolding mass_removal_guard reconcile_missing record_collector_success record_collector_partial
    record_removal_guard remove seen_count eq_text
settle generation now result baseline a =
    let collector = result.collector in
    let seen = ids_of result.resources in
    let silent = collector == str "device_details" in
    let (guarded, missing) = mass_removal_guard generation result seen a in
    let fetched = fetched_at now result in
    let (waits, reconciled) =
      if not result.partial && ltb 0 missing
      then reconcile_missing generation collector seen baseline silent a
      else (false, a) in
    let released = record reconciled {
      guard_since =
          if not result.partial && not waits
          then remove reconciled.guard_since collector
          else reconciled.guard_since;
    } in
    if not guarded
    then record_collector_success generation collector fetched released
    else if result.partial
    then record_collector_partial generation result fetched a
    else record_removal_guard generation collector baseline missing (seen_count seen) fetched a

module _ (decode : Text → Option Json) (digest : Text → Text) where
  -- `collector`.
  unfoldable pub apply_collector : ℕ → ℕ → Limits → Collected → Apply → Apply
  unfolding state_row shared_users_absorption upsert_all settle eq_text
  apply_collector generation now limits result a =
      let baseline = baseline_of (state_row generation result.collector a.states) in
      let silent = result.collector == str "device_details" in
      let (absorb, noted) = shared_users_absorption generation result.collector baseline a in
      settle generation now result baseline (
        upsert_all decode digest generation now limits result.collector baseline silent absorb
          result.resources noted)

  -- The loop of `ApplyBatchWithOptions` over the results.
  unfoldable pub apply_results : ℕ → ℕ → Limits → List Collected → Apply → Apply
  unfolding unsupported_collector apply_collector
  apply_results generation now limits [] a = a
  apply_results generation now limits (result ∷ results) a =
      apply_results generation now limits results (
        if result.failed
        then a
        else if result.unsupported
        then unsupported_collector generation now result a
        else apply_collector generation now limits result a)

-- `markBaselineReady`: the time of the baseline once every supported collector has one.
unfoldable pub mark_baseline_ready : ℕ → ℕ → List CollectorState → Option ℕ → Option ℕ
unfolding count_where some_of
mark_baseline_ready generation now states baseline_at =
    let here : CollectorState → Bool = λ row. nat_beq row.generation generation && row.supported in
    if some_of here states && not (some_of (λ row. here row && not row.baseline) states)
    then (elim baseline_at [ none ↦ some now | some at ↦ some at ])
    else baseline_at

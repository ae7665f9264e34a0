-- ===== src/Store/Snapshots/Settle.antt =====
-- internal/store/snapshots.go: what one complete response does to the omitted resources.
use mathlib.Core.Path.{subst}
use tail_state.Prelude.{
  Bool, Bool-cases, List, Option, [], arith, every_of, false, if◌then◌else◌, inl, inr, length, ltb,
  nat_eq, refl, some, string_eq, sym, true, ℕ, ◌<◌, ◌==◌, ◌∷◌, ◌≡◌,
}
use tail_state.Text.{has_prefix, str, text_eq, text_ordered}
use tail_state.Model.Encoding.{after, before}
use tail_state.Store.Snapshots.{Apply, Collected, CollectorState, Snapshot}
use tail_state.Store.Snapshots.States.{
  failures_of, record_removal_guard, removal_guard_prefix, state_row,
}
use tail_state.Store.Snapshots.Removal.{
  absent_rows, ids_of, is_guarded, mass_removal_guard, reconcile_missing, seen_count, was_missing,
}
use tail_state.Store.Snapshots.Batch.{fetched_at, settle}
use tail_state.Store.Snapshots.Reconcile.{reconcile_missing-absent}
use tail_state.Store.Snapshots.Put.{after_put-all, state_row-put_state}

module _ (generation now : ℕ) (result : Collected) (complete : result.partial ≡ false) where
  abbrev pub absent_in : Apply → List Snapshot
  absent_in a = absent_rows generation result.collector (ids_of result.resources) a.snapshots

  abbrev pub guard_of : Apply → Bool
  guard_of a =
      is_guarded (state_row generation result.collector a.states) (absent_in a)
        (seen_count (ids_of result.resources))

  settle-guarded :
      (baseline : Bool) (a : Apply)
      → guard_of a ≡ true
      → settle generation now result baseline a
        ≡ record_removal_guard generation result.collector baseline
            (length (absent_in a))
            (seen_count (ids_of result.resources))
            (fetched_at now result)
            a
  unfolding settle mass_removal_guard
  settle-guarded baseline a h = rw (complete, h) refl

  settle-open :
      (baseline : Bool) (a : Apply)
      → guard_of a ≡ false
      → (settle generation now result baseline a).snapshots ≡ (
          if ltb 0 (length (absent_in a))
          then (reconcile_missing generation result.collector
              (ids_of result.resources)
              baseline
              (result.collector == str "device_details")
              a).1.snapshots
          else a.snapshots)
  unfolding settle mass_removal_guard
  settle-open baseline a h = elim (Bool-cases (ltb 0 (length (absent_in a)))) [
    | inl some_absent ↦ rw (complete, h, some_absent) refl
    | inr none_absent ↦ rw (complete, h, none_absent) refl
  ]

  -- The state of a collector whose removals are held back, after one more time than `before`.
  abbrev pub Counted : Option CollectorState → CollectorState → Type 0
  Counted before row =
      (has_prefix row.last_error removal_guard_prefix ≡ true)
      × (failures_of before < row.failure_count)

  abbrev pub Held : Apply → Apply → Type 0
  Held a after =
      (absent_in after ≡ absent_in a)
      × ((row : CollectorState) × (state_row generation result.collector after.states ≡ some row)
          × Counted (state_row generation result.collector a.states) row)

  record_removal_guard-Held :
      (baseline : Bool) (missing present fetched : ℕ) (a : Apply)
      → Held a (record_removal_guard generation result.collector baseline missing present fetched a)
  unfolding record_removal_guard has_prefix
  record_removal_guard-Held baseline missing present fetched a = (
    refl,
    (
      _,
      state_row-put_state generation result.collector _ _ a.states refl refl (λ r k. k),
      after_put-all Counted _ _ (state_row generation result.collector a.states) (refl, omega arith)
          (λ r. (refl, omega arith)),
    ),
  )

  -- A complete response that is held back leaves the omitted rows, and is counted.
  pub guard-step :
      (baseline : Bool) (a : Apply)
      → guard_of a ≡ true
      → Held a (settle generation now result baseline a)
  guard-step baseline a h =
      subst (λ after. Held a after) (sym (settle-guarded baseline a h))
        (record_removal_guard-Held baseline (length (absent_in a))
          (seen_count (ids_of result.resources)) (fetched_at now result) a)

  -- One that is not held back leaves no row that was not missing before, and none if all were.
  abbrev pub Advances : List Snapshot → List Snapshot → Type 0
  Advances before after =
      (every_of was_missing after ≡ true) × (every_of was_missing before ≡ true → after ≡ [])

  pub open-step :
      (baseline : Bool) (a : Apply)
      → guard_of a ≡ false
      → Advances (absent_in a) (absent_in (settle generation now result baseline a))
  unfolding every_of
  open-step baseline a h =
      subst
        (λ table.
          Advances (absent_in a)
            (absent_rows generation result.collector (ids_of result.resources) table))
        (sym (settle-open baseline a h))
        (elim (Bool-cases (ltb 0 (length (absent_in a)))) [
          | inl some_absent ↦ rw some_absent (
              reconcile_missing-absent generation result.collector (ids_of result.resources)
                baseline (result.collector == str "device_details") a)
          | inr none_absent ↦ rw none_absent (nothing (absent_in a) none_absent)
        ])
    where
      nothing : (rows : List Snapshot) → ltb 0 (length rows) ≡ false → Advances rows rows
      nothing [] h = (refl, λ all. refl)
      nothing (r ∷ rows) h = absurd (ground arith)

-- ===== src/Store/Snapshots/Demotion.antt =====
-- internal/store/snapshots.go: responses that are not supported, one after the other.
use tail_state.Prelude.{
  Bool-cases, Option, ap, arith, false, if◌then◌else◌, inl, inr, length, length-append, nat_eq,
  refl, some, string_eq, true, ℕ, ◌+◌, ◌||◌, ◌∙◌, ◌≡◌,
}
use tail_state.Text.{Text, eq_text, str, text_eq, text_ordered, trim_space}
use tail_state.Store.Snapshots.{Apply, Collected, CollectorState, state_of}
use tail_state.Store.Snapshots.States.{new_state, or_text, state_row}
use tail_state.Store.Snapshots.Unsupported.{
  awaits_confirmation, demote_collector, demoted, is_first_refusal, is_reported_now,
  unsupported_collector,
}
use tail_state.Store.Snapshots.Put.{after_put, find_row-update_where, state_row-put_state}

module _ (generation : ℕ) (collector : Text) where
  abbrev pub collector_row : Apply → Option CollectorState
  collector_row a = state_row generation collector a.states

  -- The first such response of a baselined collector only makes it wait for another.
  first_refusal :
      (now : ℕ) (result : Collected) (a : Apply) (row : CollectorState)
      → result.collector ≡ collector
      → collector_row a ≡ some row
      → is_first_refusal (some row) ≡ true
      → (collector_row (unsupported_collector generation now result a)
          ≡ some (awaits_confirmation now row))
        × ((unsupported_collector generation now result a).unhealthy ≡ a.unhealthy)
  unfolding unsupported_collector state_row
  first_refusal now result a row c e first =
      rw (c, e, first)
        (
          find_row-update_where (state_of generation collector) (awaits_confirmation now) a.states
              row (λ r k. k) e,
          refl,
        )

  -- Any other one demotes the collector, and is reported where no response was before.
  other_refusal :
      (now : ℕ) (result : Collected) (a : Apply) (row : CollectorState)
      → result.collector ≡ collector
      → collector_row a ≡ some row
      → is_first_refusal (some row) ≡ false
      → (next : CollectorState) × (collector_row (unsupported_collector generation now result a)
          ≡ some next)
        × (next.supported ≡ false)
        × (next.baseline ≡ row.baseline)
        × (next.unhealthy_notified ≡ is_reported_now (some row) || row.unhealthy_notified)
  unfolding unsupported_collector demote_collector
  other_refusal now result a row c e other =
      let reason = or_text (trim_space result.unsupported_reason) (str "unsupported") in
      let notified = is_reported_now (some row) || row.unhealthy_notified in
      let fresh = demoted now reason notified (new_state generation collector) in
      rw (c, e, other)
        (
          demoted now reason notified row,
          state_row-put_state generation collector fresh (demoted now reason notified) a.states refl
                refl (λ r k. k)
              ∙ ap (λ found. some (after_put fresh (demoted now reason notified) found)) e,
          refl,
          refl,
          refl,
        )

  other_refusal-unhealthy :
      (now : ℕ) (result : Collected) (a : Apply) (row : CollectorState)
      → result.collector ≡ collector
      → collector_row a ≡ some row
      → is_first_refusal (some row) ≡ false
      → (is_reported_now (some row) ≡ false
          → (unsupported_collector generation now result a).unhealthy ≡ a.unhealthy)
        × (is_reported_now (some row) ≡ true
            → length (unsupported_collector generation now result a).unhealthy
              ≡ length a.unhealthy + 1)
  unfolding unsupported_collector demote_collector
  other_refusal-unhealthy now result a row c e other = (
    λ silent. rw (c, e, other, silent) refl,
    λ reported. rw (c, e, other, reported) (length-append a.unhealthy _),
  )

  awaits-refused :
      (now : ℕ) (row : CollectorState)
      → is_first_refusal (some (awaits_confirmation now row)) ≡ false
  unfolding is_first_refusal eq_text
  awaits-refused now row = ground arith

  unsupported-refused :
      (row : CollectorState)
      → row.supported ≡ false
      → (is_first_refusal (some row) ≡ false) × (is_reported_now (some row) ≡ false)
  unfolding is_first_refusal
  unsupported-refused row u = (rw u refl, rw u refl)

  waits-baseline : (row : CollectorState) → is_first_refusal (some row) ≡ true → row.baseline ≡ true
  unfolding is_first_refusal
  waits-baseline row h = ground arith

  told_after :
      (row : CollectorState)
      → row.baseline ≡ true
      → (is_reported_now (some (awaits_confirmation 0 row)) || row.unhealthy_notified) ≡ true
  told_after row b = elim (Bool-cases row.unhealthy_notified) [
    | inl was ↦ rw (b, was) refl
    | inr not_yet ↦ rw (b, not_yet) refl
  ]

  notices :
      (row : CollectorState) (b : row.baseline ≡ true) (one two a : Apply)
      → one.unhealthy ≡ a.unhealthy
      → (is_reported_now (some (awaits_confirmation 0 row)) ≡ false → two.unhealthy ≡ one.unhealthy)
      → (is_reported_now (some (awaits_confirmation 0 row)) ≡ true
          → length two.unhealthy ≡ length one.unhealthy + 1)
      → length two.unhealthy ≡ length a.unhealthy + (if row.unhealthy_notified then 0 else 1)
  notices row b one two a quiet silent reported = elim (Bool-cases row.unhealthy_notified) [
    | inl was ↦ rw was (omega (arith, ap length (silent (rw (b, was) refl) ∙ quiet)))
    | inr not_yet ↦ rw not_yet (omega (arith, ap length quiet, reported (rw (b, not_yet) refl)))
  ]

  abbrev pub IsDemoted : CollectorState → Type 0
  IsDemoted row = (row.supported ≡ false) × (row.baseline ≡ true) × (row.unhealthy_notified ≡ true)

  -- A supported collector with a baseline that was not waiting for a confirmation keeps both at
  -- its first response that is not supported, without a notice. The second demotes it, keeps its
  -- baseline, and adds exactly one notice, or none where one was given before; a third adds none.
  pub demotion-twice :
      (first second third : ℕ) (result again later : Collected) (a : Apply) (row : CollectorState)
      → result.collector ≡ collector
      → again.collector ≡ collector
      → later.collector ≡ collector
      → collector_row a ≡ some row
      → is_first_refusal (some row) ≡ true
      → let one = unsupported_collector generation first result a in
        let two = unsupported_collector generation second again one in
        let three = unsupported_collector generation third later two in
        (collector_row one ≡ some (awaits_confirmation first row))
        × (one.unhealthy ≡ a.unhealthy)
        × ((next : CollectorState) × (collector_row two ≡ some next) × IsDemoted next)
        × (length two.unhealthy ≡ length a.unhealthy + (if row.unhealthy_notified then 0 else 1))
        × (three.unhealthy ≡ two.unhealthy)
  demotion-twice first second third result again later a row c d f e waits =
      let b = waits-baseline row waits in
      let (s, quiet) = first_refusal first result a row c e waits in
      let one = unsupported_collector generation first result a in
      let two = unsupported_collector generation second again one in
      let held = awaits_confirmation first row in
      let refused = awaits-refused first row in
      let (next, t, u, kept, told) = other_refusal second again one held d s refused in
      let (silent, reported) = other_refusal-unhealthy second again one held d s refused in
      let (no_first, no_report) = unsupported-refused next u in
      (
        s,
        quiet,
        (next, t, (u, kept ∙ b, told ∙ told_after row b)),
        notices row b one two a quiet silent reported,
        (other_refusal-unhealthy third later two next f t no_first).0 no_report,
      )

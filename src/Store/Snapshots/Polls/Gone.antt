-- ===== src/Store/Snapshots/Polls/Gone.antt =====
-- internal/store/snapshots.go: the omitted resources are gone after four polls.
use tail_state.Prelude.{
  Bool, Bool-cases, Every, List, Option, [], ap, arith, every_of, false, if◌then◌else◌, inl, inr,
  leb, length, ltb, nat_beq, nat_eq, not, refl, some, string_eq, suc, true, zero, ℕ, ◌&&◌, ◌<◌,
  ◌||◌, ◌∷◌, ◌≡◌, ◌≤◌, ◌⊎◌,
}
use tail_state.Text.{Text, has_prefix, text_eq, text_ordered}
use tail_state.Model.{Json}
use tail_state.Store.Snapshots.{Apply, Collected, CollectorState, Limits, Snapshot}
use tail_state.Store.Snapshots.States.{failures_of, removal_guard_prefix}
use tail_state.Store.Snapshots.Removal.{absent_rows, is_guarded, was_missing}
use tail_state.Store.Snapshots.Batch.{apply_results}
use tail_state.Store.Snapshots.Polls.{
  Holds, IsHeld, Step, is_held, omitted, poll-Step, poll_all, state_in,
}

-- Rows that were all missing before are not held back.
guarded-known :
    (state : Option CollectorState) (rows : List Snapshot) (present : ℕ)
    → every_of was_missing rows ≡ true
    → is_guarded state rows present ≡ false
unfolding is_guarded
guarded-known state [] present h = refl
guarded-known state (r ∷ rows) present h =
    rw h (confirmed (leb 3 (suc (length rows)) && ltb present (suc (length rows))) (length rows) _)
  where
    confirmed :
        (b : Bool) (n : ℕ) (c : Bool)
        → (if not b || (not (nat_beq (suc n) 0) && true) then false else c) ≡ false
    confirmed true n c = ground arith
    confirmed false n c = refl

-- Nor are any after two responses that were.
guarded-twice :
    (row : CollectorState) (rows : List Snapshot) (present : ℕ)
    → has_prefix row.last_error removal_guard_prefix ≡ true
    → 1 < row.failure_count
    → is_guarded (some row) rows present ≡ false
unfolding is_guarded
guarded-twice row rows present p f =
    let enough : ltb row.failure_count 2 ≡ false = ground arith in rw (p, enough) (same _)
  where
    same : (b : Bool) → (if b then false else false) ≡ false
    same true = refl
    same false = refl

module _ (generation : ℕ) (collector : Text) (seen : List Text) where
  abbrev AllMissing : Apply → Type 0
  AllMissing a = every_of was_missing (omitted generation collector seen a) ≡ true

  -- At most this many polls are left until the omitted rows are gone.
  abbrev PollsLeft : ℕ → Apply → Type 0
  PollsLeft zero a = omitted generation collector seen a ≡ []
  PollsLeft (suc zero) a = AllMissing a
  PollsLeft (suc (suc zero)) a =
      AllMissing a ⊎ IsHeld generation collector seen 1 (state_in generation collector seen a)
  PollsLeft (suc (suc (suc zero))) a =
      AllMissing a ⊎ IsHeld generation collector seen 0 (state_in generation collector seen a)
  PollsLeft (suc (suc (suc (suc n)))) a = Unit

  module _ (a b : Apply) (step : Step generation collector seen a b) where
    AllMissing-step : AllMissing a → omitted generation collector seen b ≡ []
    AllMissing-step all = (step.1 (guarded-known _ _ _ all)).1 all

    none_left-step : PollsLeft 0 a → PollsLeft 0 b
    unfolding every_of
    none_left-step gone = AllMissing-step (rw gone refl)

    any-step :
        AllMissing b
        ⊎ IsHeld generation collector seen
            (failures_of (state_in generation collector seen a))
            (state_in generation collector seen b)
    any-step =
        elim (Bool-cases (
          is_held generation collector seen (omitted generation collector seen a)
            (state_in generation collector seen a))) [
              | inl held ↦ inr (step.0 held).1
              | inr free ↦ inl (step.1 free).0
            ]

    twice-step :
        IsHeld generation collector seen 1 (state_in generation collector seen a) → AllMissing b
    twice-step (row, is, (p, f)) = (step.1 (rw is (guarded-twice row _ _ p f))).0

    gone-AllMissing : omitted generation collector seen b ≡ [] → AllMissing b
    unfolding every_of
    gone-AllMissing gone = rw gone refl

    PollsLeft-step : (n : ℕ) → PollsLeft (suc n) a → PollsLeft n b
    PollsLeft-step zero all = AllMissing-step all
    PollsLeft-step (suc zero) (inl all) = gone-AllMissing (AllMissing-step all)
    PollsLeft-step (suc zero) (inr held) = twice-step held
    PollsLeft-step (suc (suc zero)) (inl all) = inl (gone-AllMissing (AllMissing-step all))
    PollsLeft-step (suc (suc zero)) (inr (row, is, (p, f))) = elim any-step [
      | inl all ↦ inl all
      | inr (row', is', (p', f')) ↦ inr (row', is', (p', omega (arith, ap failures_of is)))
    ]
    PollsLeft-step (suc (suc (suc zero))) h = elim any-step [
      | inl all ↦ inl all
      | inr (row', is', (p', f')) ↦ inr (row', is', (p', omega arith))
    ]
    PollsLeft-step (suc (suc (suc (suc n)))) h = tt

module _ (decode : Text → Option Json) (digest : Text → Text) (generation : ℕ)
    (limits : Limits) where
  poll_all-PollsLeft :
      (collector : Text) (seen : List Text) (polls : List (ℕ × Collected)) (n : ℕ) (a : Apply)
      → Every (λ p. Holds decode digest generation limits collector seen p.1) polls
      → n ≤ length polls
      → PollsLeft generation collector seen n a
      → omitted generation collector seen (poll_all decode digest generation limits polls a) ≡ []
  unfolding poll_all
  poll_all-PollsLeft collector seen [] zero a h le left = left
  poll_all-PollsLeft collector seen [] (suc n) a h le left = absurd (omega arith)
  poll_all-PollsLeft collector seen ((now, result) ∷ polls) zero a h le left =
      poll_all-PollsLeft collector seen polls zero
        (apply_results decode digest generation now limits (result ∷ []) a) h.1 (omega arith)
        (none_left-step generation collector seen a
          (apply_results decode digest generation now limits (result ∷ []) a)
          (poll-Step decode digest generation now limits collector seen result a h.0) left)
  poll_all-PollsLeft collector seen ((now, result) ∷ polls) (suc n) a h le left =
      poll_all-PollsLeft collector seen polls n
        (apply_results decode digest generation now limits (result ∷ []) a) h.1 (omega arith)
        (PollsLeft-step generation collector seen a
          (apply_results decode digest generation now limits (result ∷ []) a)
          (poll-Step decode digest generation now limits collector seen result a h.0) n left)

-- However many resources a collector has lost, and whatever its state: after four or more polls in
-- a row whose usable, complete responses hold the same ids, no stored snapshot of the collector is
-- left of a resource that they omit.
pub poll_all-settles :
    (decode : Text → Option Json) (digest : Text → Text) (generation : ℕ) (limits : Limits)
    (collector : Text) (seen : List Text) (polls : List (ℕ × Collected)) (a : Apply)
    → Every (λ p. Holds decode digest generation limits collector seen p.1) polls
    → 4 ≤ length polls
    → absent_rows generation collector seen
        (poll_all decode digest generation limits polls a).snapshots
      ≡ []
poll_all-settles decode digest generation limits collector seen polls a h le =
    poll_all-PollsLeft decode digest generation limits collector seen polls 4 a h le tt

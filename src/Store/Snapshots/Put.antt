-- ===== src/Store/Snapshots/Put.antt =====
-- internal/store/snapshots.go: the row of a collector's state after an INSERT or UPDATE of it.
use tail_state.Prelude.{
  ==_refl, Bool, Bool-cases, List, Option, [], ap, false, inl, inr, nat_beq_iff, nat_eq, none, refl,
  some, some_of, string_eq, true, ℕ, ◌++◌, ◌∷◌, ◌≡◌,
}
use tail_state.Text.{Text, text_eq, text_ordered}
use tail_state.Store.Table.{find_row, update_where}
use tail_state.Store.Snapshots.{CollectorState, state_of}
use tail_state.Store.Snapshots.States.{put_state, state_row}

module _ {A : Type 0} (test : A → Bool) where
  pub find_row-update_where :
      (set : A → A) (rows : List A) (r : A)
      → ((x : A) → test x ≡ true → test (set x) ≡ true)
      → find_row test rows ≡ some r
      → find_row test (update_where test set rows) ≡ some (set r)
  unfolding find_row update_where
  find_row-update_where set [] r keeps h = absurd (cc h)
  find_row-update_where set (x ∷ rows) r keeps h = elim (Bool-cases (test x)) [
    | inl passes ↦
        let e : x ≡ r = cc (rw passes at h) in
        rw (passes, keeps x passes) (ap (λ y. some (set y)) e)
    | inr fails ↦ rw (fails, fails) (find_row-update_where set rows r keeps (rw fails at h))
  ]

  find_row-append :
      (rows : List A) (fresh : A)
      → find_row test rows ≡ none
      → test fresh ≡ true
      → find_row test (rows ++ (fresh ∷ [])) ≡ some fresh
  unfolding find_row
  find_row-append [] fresh h t = rw t refl
  find_row-append (x ∷ rows) fresh h t = elim (Bool-cases (test x)) [
    | inl passes ↦ absurd (cc (rw passes at h))
    | inr fails ↦ rw fails (find_row-append rows fresh (rw fails at h) t)
  ]

  some_of-find_row :
      (rows : List A)
      → (some_of test rows ≡ false → find_row test rows ≡ none)
        × (some_of test rows ≡ true → (r : A) × (find_row test rows ≡ some r))
  unfolding find_row some_of
  some_of-find_row [] = (λ h. refl, λ h. absurd (cc h))
  some_of-find_row (x ∷ rows) = elim (Bool-cases (test x)) [
    | inl passes ↦ (λ h. absurd (cc (rw passes at h)), λ h. (x, rw passes refl))
    | inr fails ↦ (
      λ h. rw fails ((some_of-find_row rows).0 (rw fails at h)),
      λ h. let (r, e) = (some_of-find_row rows).1 (rw fails at h) in (r, rw fails e),
    )
  ]

abbrev pub after_put :
    CollectorState → (CollectorState → CollectorState) → Option CollectorState → CollectorState
after_put fresh set none = fresh
after_put fresh set (some row) = set row

state_of-own :
    (generation : ℕ) (collector : Text) (row : CollectorState)
    → row.generation ≡ generation
    → row.collector ≡ collector
    → state_of generation collector row ≡ true
state_of-own generation collector row e f =
    rw (e, f, (nat_beq_iff generation generation).1 refl, ==_refl collector) refl

pub state_row-put_state :
    (generation : ℕ) (collector : Text) (fresh : CollectorState)
    (set : CollectorState → CollectorState) (states : List CollectorState)
    → fresh.generation ≡ generation
    → fresh.collector ≡ collector
    → ((r : CollectorState)
        → state_of generation collector r ≡ true
        → state_of generation collector (set r) ≡ true)
    → state_row generation collector (put_state generation collector fresh set states)
      ≡ some (after_put fresh set (state_row generation collector states))
unfolding state_row put_state
state_row-put_state generation collector fresh set states g c s =
    let f = state_of-own generation collector fresh g c in
    let test = state_of generation collector in
    elim (Bool-cases (some_of test states)) [
      | inl there ↦
          let (r, e) = (some_of-find_row test states).1 there in
          rw (there, e) (find_row-update_where test set states r s e)
      | inr absent ↦
          let e = (some_of-find_row test states).0 absent in
          rw (absent, e) (find_row-append test states fresh e f)
    ]

-- What every put of a kind gives, whether the row was there or not.
pub after_put-all :
    (P : Option CollectorState → CollectorState → Type 0) (fresh : CollectorState)
    (set : CollectorState → CollectorState) (o : Option CollectorState)
    → P none fresh
    → ((r : CollectorState) → P (some r) (set r))
    → P o (after_put fresh set o)
after_put-all P fresh set none f s = f
after_put-all P fresh set (some r) f s = s r

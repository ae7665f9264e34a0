-- ===== src/Store/Snapshots/Reconcile.antt =====
-- internal/store/snapshots.go: what `reconcileMissing` leaves of the omitted resources.
use tail_state.Prelude.{
  ==_refl, Bool, Bool-cases, Every, Every-mono, List, [], arith, every_of, false, if◌then◌else◌,
  inl, inr, keep_if, leb, nat_eq, not, refl, some_of, string_eq, true, ℕ, ◌&&◌, ◌+◌, ◌||◌, ◌∷◌, ◌≡◌,
  ◌⊎◌,
}
use tail_state.Text.{Text, text_eq, text_ordered}
use tail_state.Store.Table.{update_where}
use tail_state.Store.Snapshots.{Apply, Snapshot, is_row, of_collector}
use tail_state.Store.Snapshots.Removal.{
  absent_rows, is_absent, missed_again, reconcile_missing, reconcile_row, reconcile_rows,
  was_missing,
}

module _ {A : Type 0} where
  Every-kept :
      (p : A → Bool) (P : A → Type 0) (xs : List A)
      → Every P xs
      → Every (λ x. (p x ≡ true) × P x) (keep_if p xs)
  unfolding keep_if
  Every-kept p P [] h = tt
  Every-kept p P (x ∷ xs) h = elim (Bool-cases (p x)) [
    | inl passes ↦ rw passes ((passes, h.0), Every-kept p P xs h.1)
    | inr fails ↦ rw fails (Every-kept p P xs h.1)
  ]

  Every-update_where :
      (test : A → Bool) (set : A → A) (P Q : A → Type 0) (rows : List A)
      → ((r : A) → test r ≡ true → P r → Q (set r))
      → ((r : A) → test r ≡ false → P r → Q r)
      → Every P rows
      → Every Q (update_where test set rows)
  unfolding update_where
  Every-update_where test set P Q [] f g h = tt
  Every-update_where test set P Q (r ∷ rows) f g h =
      (here (Bool-cases (test r)), Every-update_where test set P Q rows f g h.1)
    where
      here : (test r ≡ true) ⊎ (test r ≡ false) → Q (if test r then set r else r)
      here (inl passes) = rw passes (f r passes h.0)
      here (inr fails) = rw fails (g r fails h.0)

  keep_if-none : (p : A → Bool) (xs : List A) → Every (λ x. p x ≡ true → ⊥) xs → keep_if p xs ≡ []
  unfolding keep_if
  keep_if-none p [] h = refl
  keep_if-none p (x ∷ xs) h = elim (Bool-cases (p x)) [
    | inl passes ↦ absurd (h.0 passes)
    | inr fails ↦ rw fails (keep_if-none p xs h.1)
  ]

  every_of-keep_if :
      (p q : A → Bool) (xs : List A)
      → Every (λ x. p x ≡ true → q x ≡ true) xs
      → every_of q (keep_if p xs) ≡ true
  unfolding keep_if every_of
  every_of-keep_if p q [] h = refl
  every_of-keep_if p q (x ∷ xs) h = elim (Bool-cases (p x)) [
    | inl passes ↦ rw (passes, h.0 passes) (every_of-keep_if p q xs h.1)
    | inr fails ↦ rw fails (every_of-keep_if p q xs h.1)
  ]

  -- A list that a test keeps has a match for each element that passes it.
  some_of-keep_if :
      (p : A → Bool) (m : A → A → Bool) (xs : List A)
      → ((x : A) → p x ≡ true → m x x ≡ true)
      → Every (λ x. p x ≡ true → some_of (λ l. m l x) (keep_if p xs) ≡ true) xs
  unfolding keep_if some_of
  some_of-keep_if p m [] same = tt
  some_of-keep_if p m (x ∷ xs) same = (
    λ passes. rw (passes, same x passes) refl,
    Every-mono _ _ xs (λ y h passes. longer (p x) y (h passes)) (some_of-keep_if p m xs same),
  )
    where
      longer :
          (b : Bool) (y : A)
          → some_of (λ l. m l y) (keep_if p xs) ≡ true
          → some_of (λ l. m l y) (if b then x ∷ keep_if p xs else keep_if p xs) ≡ true
      longer true y h = or_right (m x y) h
        where
          or_right : (b : Bool) {c : Bool} → c ≡ true → (b || c) ≡ true
          or_right true k = refl
          or_right false k = k
      longer false y h = h

module _ (generation : ℕ) (collector : Text) (seen : List Text) (events : Bool) where
  -- The row of one of the rows that the loop has still to visit.
  left_over : List Snapshot → Snapshot → Bool
  left_over rows r = some_of (λ l. is_row generation collector l.resource_id r) rows

  -- Each omitted row of the table is still to be visited, or as `P` says.
  abbrev Waits : (Snapshot → Type 0) → List Snapshot → List Snapshot → Type 0
  Waits P rows table =
      Every (λ r. is_absent generation collector seen r ≡ true → P r ⊎ (left_over rows r ≡ true))
        table

  Waits-deleted :
      (P : Snapshot → Type 0) (l : Snapshot) (rows table : List Snapshot)
      → Waits P (l ∷ rows) table
      → Waits P rows (keep_if (λ r. not (is_row generation collector l.resource_id r)) table)
  unfolding left_over some_of
  Waits-deleted P l rows table h =
      Every-mono _ _ _
        (λ r k absent. elim (k.1 absent) [
          | inl p ↦ inl p
          | inr visit ↦ inr (rest (is_row generation collector l.resource_id r) _ k.0 visit)
        ])
        (Every-kept (λ r. not (is_row generation collector l.resource_id r)) _ table h)
    where
      rest : (a b : Bool) → not a ≡ true → (a || b) ≡ true → b ≡ true
      rest a b k v = ground arith

  Waits-missed :
      (l : Snapshot) (rows table : List Snapshot)
      → Waits (λ r. was_missing r ≡ true) (l ∷ rows) table
      → Waits
          (λ r. was_missing r ≡ true)
          rows
          (update_where (is_row generation collector l.resource_id) missed_again table)
  unfolding left_over some_of
  Waits-missed l rows table h =
      Every-update_where _ missed_again _ _ table (λ r k q absent. inl (ground arith))
        (λ r k q absent. elim (q absent) [ inl p ↦ inl p | inr visit ↦ inr (rw k at visit) ]) h

  reconcile_row-Waits :
      (l : Snapshot) (rows : List Snapshot) (waits : Bool) (a : Apply)
      → Waits (λ r. was_missing r ≡ true) (l ∷ rows) a.snapshots
      → Waits
          (λ r. was_missing r ≡ true)
          rows
          (reconcile_row generation collector events l (waits, a)).1.snapshots
  unfolding reconcile_row
  reconcile_row-Waits l rows waits a h = elim (Bool-cases (leb 2 (l.missing_count + 1))) [
    | inl again ↦
        rw (again, reconcile_row) (Waits-deleted (λ r. was_missing r ≡ true) l rows a.snapshots h)
    | inr first ↦ rw (first, reconcile_row) (Waits-missed l rows a.snapshots h)
  ]

  -- After the loop each omitted row that is still stored has been missing before.
  reconcile_rows-Waits :
      (rows : List Snapshot) (waits : Bool) (a : Apply)
      → Waits (λ r. was_missing r ≡ true) rows a.snapshots
      → Waits
          (λ r. was_missing r ≡ true)
          []
          (reconcile_rows generation collector events rows (waits, a)).1.snapshots
  unfolding reconcile_rows
  reconcile_rows-Waits [] waits a h = h
  reconcile_rows-Waits (l ∷ rows) waits a h =
      let (waits', next) = reconcile_row generation collector events l (waits, a) in
      reconcile_rows-Waits rows waits' next (reconcile_row-Waits l rows waits a h)

  -- Rows that were missing before are all removed.
  reconcile_rows-removes :
      (rows : List Snapshot) (waits : Bool) (a : Apply)
      → every_of was_missing rows ≡ true
      → Waits (λ r. ⊥) rows a.snapshots
      → Waits (λ r. ⊥) [] (reconcile_rows generation collector events rows (waits, a)).1.snapshots
  unfolding reconcile_rows every_of
  reconcile_rows-removes [] waits a m h = h
  reconcile_rows-removes (l ∷ rows) waits a m h =
      let again : leb 2 (l.missing_count + 1) ≡ true = ground (arith, m) in
      let left : every_of was_missing rows ≡ true = rest (was_missing l) _ m in
      let after = reconcile_row generation collector events l (waits, a) in
      reconcile_rows-removes rows after.0 after.1 left (removed_row again)
    where
      rest : (a b : Bool) → (a && b) ≡ true → b ≡ true
      rest a b k = ground arith

      removed_row :
          leb 2 (l.missing_count + 1) ≡ true
          → Waits (λ r. ⊥) rows (reconcile_row generation collector events l (waits, a)).1.snapshots
      removed_row again = rw (again, reconcile_row) (Waits-deleted (λ r. ⊥) l rows a.snapshots h)

  Waits-start :
      (P : Snapshot → Type 0) (table : List Snapshot)
      → Waits P (absent_rows generation collector seen table) table
  unfolding absent_rows left_over is_absent
  Waits-start P table =
      Every-mono _ _ table (λ r h absent. inr (h absent))
        (some_of-keep_if (is_absent generation collector seen)
          (λ l r. is_row generation collector l.resource_id r) table (λ r absent. own r absent))
    where
      own :
          (r : Snapshot)
          → is_absent generation collector seen r ≡ true
          → is_row generation collector r.resource_id r ≡ true
      own r absent =
          rw (==_refl r.resource_id) (both (of_collector generation collector r) _ absent)
        where
          both : (a b : Bool) → (a && b) ≡ true → (a && true) ≡ true
          both a b k = ground arith

module _ (generation : ℕ) (collector : Text) (seen : List Text) where
  -- A complete response that is not held back leaves no omitted row that was not missing before,
  -- and none at all if all of them were.
  pub reconcile_missing-absent :
      (baselined silent : Bool) (a : Apply)
      → let after = (reconcile_missing generation collector seen baselined silent a).1.snapshots in
        (every_of was_missing (absent_rows generation collector seen after) ≡ true)
        × (every_of was_missing (absent_rows generation collector seen a.snapshots) ≡ true
            → absent_rows generation collector seen after ≡ [])
  unfolding reconcile_missing absent_rows
  reconcile_missing-absent baselined silent a =
      let events = baselined && not silent in
      let rows = absent_rows generation collector seen a.snapshots in
      (
        every_of-keep_if (is_absent generation collector seen) was_missing _ (
            Every-mono _ _ _ (λ r h absent. settled r (h absent))
              (reconcile_rows-Waits generation collector seen events rows false a
                (Waits-start generation collector seen events _ a.snapshots))),
        λ all. keep_if-none (is_absent generation collector seen) _ (
            Every-mono _ _ _ (λ r h absent. none_left r (h absent))
              (reconcile_rows-removes generation collector seen events rows false a all
                (Waits-start generation collector seen events _ a.snapshots))),
      )
    where
      settled :
          (r : Snapshot)
          → (was_missing r ≡ true)
            ⊎ (left_over generation collector seen (baselined && not silent) [] r ≡ true)
          → was_missing r ≡ true
      settled r (inl h) = h
      settled r (inr h) = absurd (unfold left_over some_of in cc h)

      none_left :
          (r : Snapshot)
          → ⊥ ⊎ (left_over generation collector seen (baselined && not silent) [] r ≡ true)
          → ⊥
      none_left r (inl h) = h
      none_left r (inr h) = unfold left_over some_of in cc h

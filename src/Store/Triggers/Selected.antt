-- ===== src/Store/Triggers/Selected.antt =====
-- The rows that `ClaimWebhookTriggers` selects, as they are read, and the table they come from.
use tail_state.Store.Triggers.{
  Trigger, bury, has_id, is_buried, is_due, is_released, read_row, release, safe_error, with_names,
}
use tail_state.Prelude.{
  Bool, Bool-cases, List, Option-cases, [], arith, false, inl, inr, keep_if, length, nat_eq, refl,
  some, string_eq, suc, take, true, zero, ℕ, ◌∙◌, ◌∷◌, ◌≡◌,
}
use tail_state.Text.{Text, text_eq, text_ordered}
use tail_state.Store.Triggers.Rows.{AllRows, DistinctIds, map_row, row_of, row_of-update_where}
use tail_state.Store.Triggers.Claim.{read_rows, reclaim}
use tail_state.Store.Triggers.Lease.{reclaimed}
use tail_state.Store.Table.{find_row, update_where}

-- A trigger that was read is a due row of the table, with its columns.
pub record IsSelected (now : ℕ) (table : List Trigger) (s : Trigger) : Type 0 where
  pub row : Trigger
  pub found : row_of s.id table ≡ some row
  pub is_ready : is_due now row ≡ true
  pub same_id : s.id ≡ row.id
  pub same_attempts : s.attempts ≡ row.attempts
  pub same_received : s.received_at ≡ row.received_at
  pub same_next : s.next_attempt ≡ row.next_attempt

-- Each row is the row of its id.
own_rows : (rows : List Trigger) → DistinctIds rows → AllRows (λ t. row_of t.id rows ≡ some t) rows
unfolding find_row
own_rows [] h = tt
own_rows (t ∷ rows) h = (ground arith, behind rows rows h.0 (own_rows rows h.1))
  where
    behind :
        (ts table : List Trigger)
        → AllRows (λ r. has_id t.id r ≡ false) ts
        → AllRows (λ r. row_of r.id table ≡ some r) ts
        → AllRows (λ r. row_of r.id (t ∷ table) ≡ some r) ts
    behind [] table other own = tt
    behind (r ∷ ts) table other own =
        (unfold find_row in ground (arith, other.0, own.0), behind ts table other.1 own.1)

due_rows :
    (now : ℕ) (table ts : List Trigger)
    → AllRows (λ t. row_of t.id table ≡ some t) ts
    → AllRows (IsSelected now table) (keep_if (is_due now) ts)
unfolding keep_if
due_rows now table [] h = tt
due_rows now table (t ∷ ts) h = elim (Bool-cases (is_due now t)) [
  | inl due ↦ rw due (
    record {
      row = t;
      found = h.0;
      is_ready = due;
      same_id = refl;
      same_attempts = refl;
      same_received = refl;
      same_next = refl;
    },
    due_rows now table ts h.1,
  )
  | inr quiet ↦ rw quiet (due_rows now table ts h.1)
]

AllRows-keep_if :
    (P : Trigger → Type 0) (test : Trigger → Bool) (ts : List Trigger)
    → AllRows P ts
    → AllRows P (keep_if test ts)
unfolding keep_if
AllRows-keep_if P test [] h = tt
AllRows-keep_if P test (t ∷ ts) h = elim (Bool-cases (test t)) [
  | inl passes ↦ rw passes (h.0, AllRows-keep_if P test ts h.1)
  | inr fails ↦ rw fails (AllRows-keep_if P test ts h.1)
]

keep_if-DistinctIds :
    (test : Trigger → Bool) (ts : List Trigger) → DistinctIds ts → DistinctIds (keep_if test ts)
unfolding keep_if
keep_if-DistinctIds test [] h = tt
keep_if-DistinctIds test (t ∷ ts) h = elim (Bool-cases (test t)) [
  | inl passes ↦ rw passes (AllRows-keep_if _ test ts h.0, keep_if-DistinctIds test ts h.1)
  | inr fails ↦ rw fails (keep_if-DistinctIds test ts h.1)
]

AllRows-take :
    (P : Trigger → Type 0) (n : ℕ) (ts : List Trigger) → AllRows P ts → AllRows P (take n ts)
AllRows-take P zero ts h = tt
AllRows-take P (suc n) [] h = tt
AllRows-take P (suc n) (t ∷ ts) h = (h.0, AllRows-take P n ts h.1)

take-DistinctIds : (n : ℕ) (ts : List Trigger) → DistinctIds ts → DistinctIds (take n ts)
take-DistinctIds zero ts h = tt
take-DistinctIds (suc n) [] h = tt
take-DistinctIds (suc n) (t ∷ ts) h = (AllRows-take _ n ts h.0, take-DistinctIds n ts h.1)

-- A row that is read keeps its numbers.
read_row-same :
    (safe : Text → Text) (t s : Trigger)
    → read_row safe t ≡ some s
    → (s.id ≡ t.id)
      × (s.attempts ≡ t.attempts)
      × (s.received_at ≡ t.received_at)
      × (s.next_attempt ≡ t.next_attempt)
unfolding read_row with_names safe_error
read_row-same safe t s h = ground (arith, h)

-- Inversion of the reading of the first row.
read_rows-cons :
    (safe : Text → Text) (t : Trigger) (ts read : List Trigger)
    → read_rows safe (t ∷ ts) ≡ some read
    → (s : Trigger) × (rest : List Trigger) × (read_row safe t ≡ some s)
      × (read_rows safe ts ≡ some rest)
      × (s ∷ rest ≡ read)
unfolding read_rows
read_rows-cons safe t ts read h = elim (Option-cases (read_row safe t)) [
  | inl damaged ↦ absurd (cc (rw (damaged, read_rows) at h))
  | inr (s, fine) ↦ elim (Option-cases (read_rows safe ts)) [
    | inl other ↦ absurd (cc (rw (fine, other, read_rows) at h))
    | inr (rest, others) ↦ (s, rest, fine, others, cc (rw (fine, others, read_rows) at h))
  ]
]

-- Reading keeps what holds of the numbers of each row, and the number of the rows.
read_rows-IsSelected :
    (safe : Text → Text) (now : ℕ) (table ts read : List Trigger)
    → read_rows safe ts ≡ some read
    → AllRows (IsSelected now table) ts
    → AllRows (IsSelected now table) read × (length read ≡ length ts)
read_rows-IsSelected safe now table [] read h all =
    let e : [] ≡ read = unfold read_rows in cc h in rw (← e) (tt, refl)
read_rows-IsSelected safe now table (t ∷ ts) read h all =
    let (s, rest, fine, others, is) = read_rows-cons safe t ts read h in
    let (id, attempts, received, next) = read_row-same safe t s fine in
    let (selected, count) = read_rows-IsSelected safe now table ts rest others all.1 in
    rw (← is) (
      (
        record {
          row = all.0.row;
          found = rw id all.0.found;
          is_ready = all.0.is_ready;
          same_id = id ∙ all.0.same_id;
          same_attempts = attempts ∙ all.0.same_attempts;
          same_received = received ∙ all.0.same_received;
          same_next = next ∙ all.0.same_next;
        },
        selected,
      ),
      omega (arith, count),
    )

read_rows-other_ids :
    (safe : Text → Text) (id : ℕ) (ts read : List Trigger)
    → read_rows safe ts ≡ some read
    → AllRows (λ r. has_id id r ≡ false) ts
    → AllRows (λ r. has_id id r ≡ false) read
read_rows-other_ids safe id [] read h all =
    let e : [] ≡ read = unfold read_rows in cc h in rw (← e) tt
read_rows-other_ids safe id (t ∷ ts) read h all =
    let (s, rest, fine, others, is) = read_rows-cons safe t ts read h in
    rw (← is)
      (rw ((read_row-same safe t s fine).0) all.0, read_rows-other_ids safe id ts rest others all.1)

read_rows-DistinctIds :
    (safe : Text → Text) (ts read : List Trigger)
    → read_rows safe ts ≡ some read
    → DistinctIds ts
    → DistinctIds read
read_rows-DistinctIds safe [] read h distinct =
    let e : [] ≡ read = unfold read_rows in cc h in rw (← e) tt
read_rows-DistinctIds safe (t ∷ ts) read h distinct =
    let (s, rest, fine, others, is) = read_rows-cons safe t ts read h in
    rw (← is) (
      rw ((read_row-same safe t s fine).0)
          (read_rows-other_ids safe t.id ts rest others distinct.0),
      read_rows-DistinctIds safe ts rest others distinct.1,
    )

-- What is selected of a table without repeated ids.
pub IsSelected-rows :
    (safe : Text → Text) (now n : ℕ) (table read : List Trigger)
    → DistinctIds table
    → read_rows safe (take n (keep_if (is_due now) table)) ≡ some read
    → AllRows (IsSelected now table) read
      × DistinctIds read
      × (length read ≡ length (take n (keep_if (is_due now) table)))
IsSelected-rows safe now n table read distinct h =
    let due = keep_if (is_due now) table in
    let (all, count) =
      read_rows-IsSelected safe now table (take n due) read h
        (AllRows-take _ n due (due_rows now table table (own_rows table distinct))) in
    (
      all,
      read_rows-DistinctIds safe (take n due) read h
          (take-DistinctIds n due (keep_if-DistinctIds (is_due now) table distinct)),
      count,
    )

-- The row of each id once expired leases and old rows were dealt with.
pub row_of-reclaim_all :
    (now id : ℕ) (rows : List Trigger)
    → row_of id (reclaim (λ _. true) now rows) ≡ map_row (reclaimed now) (row_of id rows)
unfolding reclaim reclaimed
row_of-reclaim_all now id rows = ground (
  arith,
  row_of-update_where (is_buried now) bury id (update_where (is_released now) release rows)
      (λ t. refl),
  row_of-update_where (is_released now) release id rows (λ t. refl),
)

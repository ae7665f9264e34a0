-- ===== src/Store/Triggers/Once.antt =====
-- A delivery is recorded once, however often it is sent.
use mathlib.Core.Path.{subst}
use tail_state.Prelude.{
  Bool, List, Option, Option-cases, [], ap, arith, false, inl, inr, nat_eq, none, refl, some,
  string_eq, true, ℕ, ◌++◌, ◌∙◌, ◌∷◌, ◌≡◌,
}
use tail_state.Text.{Text, text_eq, text_ordered, trim_space}
use tail_state.Store.Triggers.{Ledger, Trigger, read_row}
use tail_state.Store.Triggers.Record.{
  has_hash, insert_or_find, insert_unless, new_row, record_webhook_trigger, recorded_as,
}
use tail_state.Store.Table.{find_row}
use tail_state.Store.Metadata.{sorted_unique}

find_row-append_new :
    (test : Trigger → Bool) (rows : List Trigger) (t : Trigger)
    → find_row test rows ≡ none
    → test t ≡ true
    → find_row test (rows ++ t ∷ []) ≡ some t
unfolding find_row
find_row-append_new test [] t h p = rw p
find_row-append_new test (r ∷ rows) t h p = ground (arith, h, find_row-append_new test rows t)

insert_unless_again :
    (now later : ℕ) (hash : Text) (event_types collectors : List Text) (db : Ledger)
    (found : Option Trigger)
    → find_row (has_hash hash) db.rows ≡ found
    → let ((t, created), db') =
        insert_unless (new_row db.next_id now hash event_types collectors) db found in
      insert_or_find later hash event_types collectors db' ≡ ((t, false), db')
unfolding insert_unless insert_or_find
insert_unless_again now later hash event_types collectors db (some t) h = rw h
insert_unless_again now later hash event_types collectors db none h = rw (
    find_row-append_new (has_hash hash) db.rows (new_row db.next_id now hash event_types collectors)
      h ((text_eq.same_iff hash hash).1 refl))

insert_again :
    (now later : ℕ) (hash : Text) (event_types collectors : List Text) (db : Ledger)
    → let ((t, created), db') = insert_or_find now hash event_types collectors db in
      insert_or_find later hash event_types collectors db' ≡ ((t, false), db')
unfolding insert_or_find
insert_again now later hash event_types collectors db =
    insert_unless_again now later hash event_types collectors db (find_row (has_hash hash) db.rows)
      refl

-- What a transaction that committed has read and left.
recorded_as-some :
    (safe : Text → Text) (db db' : Ledger) (run : (Trigger × Bool) × Ledger) (t : Trigger)
    (created : Bool)
    → recorded_as safe db run ≡ (some (t, created), db')
    → (read_row safe run.0.0 ≡ some t) × (run.1 ≡ db')
unfolding recorded_as
recorded_as-some safe db db' ((r, c), after) t created h = elim (Option-cases (read_row safe r)) [
  | inl damaged ↦ absurd (cc (rw (damaged, recorded_as) at h))
  | inr (read, fine) ↦
      let same : (some (read, c), after) ≡ (some (t, created), db') = rw (fine, recorded_as) at h in
      (rw fine (cc same), cc same)
]

recorded_again :
    (safe : Text → Text) (now later : ℕ) (hash : Text) (event_types collectors : List Text)
    (db db' : Ledger) (t : Trigger) (created : Bool)
    → recorded_as safe db (insert_or_find now hash event_types collectors db)
      ≡ (some (t, created), db')
    → recorded_as safe db' (insert_or_find later hash event_types collectors db')
      ≡ (some (t, false), db')
unfolding recorded_as insert_or_find
recorded_again safe now later hash event_types collectors db db' t created h =
    let run = insert_or_find now hash event_types collectors db in
    let (read, after) = recorded_as-some safe db db' run t created h in
    let again = insert_again now later hash event_types collectors db in
    subst
      (λ d.
        recorded_as safe d (insert_or_find later hash event_types collectors d)
        ≡ (some (t, false), d))
      after (ap (recorded_as safe run.1) again ∙ rw (read, recorded_as) refl)

-- A delivery that is sent again gets the trigger of the first one, is not reported as new, and
-- leaves the table as it is.
pub record-again :
    (safe : Text → Text) (now later : ℕ) (hash : Text) (event_types collectors : List Text)
    (db db' : Ledger) (t : Trigger) (created : Bool)
    → record_webhook_trigger safe now hash event_types collectors db ≡ (some (t, created), db')
    → record_webhook_trigger safe later hash event_types collectors db' ≡ (some (t, false), db')
unfolding record_webhook_trigger
record-again safe now later hash event_types collectors db db' t created h = ground (
  arith,
  h,
  recorded_again safe now later (trim_space hash) (sorted_unique event_types)
      (sorted_unique collectors) db db' t created,
)

-- ===== src/Store/Outbox/Enqueue.antt =====
-- Queueing a notification, and queueing the dead letters of a destination again.
use tail_state.Prelude.{
  Bool, Bool-cases, List, Option, Option-cases, [], ap, arith, false, inl, inr, leb, nat_eq, none,
  or_false, refl, some, some_of, some_of-refuted, string_eq, suc, sym, true, ℕ, ◌++◌, ◌||◌, ◌∙◌,
  ◌∷◌, ◌≡◌,
}
use tail_state.Text.{Text, text_eq, text_ordered}
use tail_state.Store.Outbox.{
  Destination, Outbox, OutboxRow, enqueue_each, fresh_row, insert_row, is_active, is_destination,
  is_retried, queued_row, requeued, retry_dead_outbox, retryable_dead, waiting,
}
use tail_state.Store.Outbox.Order.{InOrder}
use tail_state.Store.Table.{find_row, some_of-update_where, update_where, update_where-none}

-- An outbox in the order of its ids, all below the counter.
abbrev pub IsNumbered : Outbox → Type 0
IsNumbered box = InOrder box.rows × (some_of (λ r. leb box.next_id r.id) box.rows ≡ false)

some_of-one_more :
    (test : OutboxRow → Bool) (rows : List OutboxRow) (r : OutboxRow)
    → some_of test (rows ++ r ∷ []) ≡ (some_of test rows || test r)
unfolding some_of
some_of-one_more test [] r = ground arith
some_of-one_more test (q ∷ rows) r = ground (arith, some_of-one_more test rows r)

InOrder-append :
    (rows : List OutboxRow) (r : OutboxRow)
    → some_of (λ q. leb r.id q.id) rows ≡ false
    → InOrder rows
    → InOrder (rows ++ r ∷ [])
unfolding some_of
InOrder-append [] r fresh h = (refl, tt)
InOrder-append (q ∷ rows) r fresh h =
    let (younger, others) = or_false (leb r.id q.id) _ fresh in
    (
      some_of-one_more (λ t. leb t.id q.id) rows r ∙ ground (arith, h.0, younger),
      InOrder-append rows r others h.1,
    )

append_assoc :
    (a : List OutboxRow) (x : OutboxRow) (b : List OutboxRow) → (a ++ x ∷ []) ++ b ≡ a ++ x ∷ b
append_assoc [] x b = refl
append_assoc (y ∷ a) x b = ap (λ r. y ∷ r) (append_assoc a x b)

append_nil : (a : List OutboxRow) → a ≡ a ++ []
append_nil [] = refl
append_nil (x ∷ a) = ap (λ r. x ∷ r) (append_nil a)

insert_row-IsNumbered :
    (row : ℕ → OutboxRow) (box : Outbox)
    → (row box.next_id).id ≡ box.next_id
    → IsNumbered box
    → IsNumbered (insert_row row box)
insert_row-IsNumbered row box is h = (
  InOrder-append box.rows (row box.next_id) (rw is h.1) h.0,
  some_of-one_more (λ q. leb (suc box.next_id) q.id) box.rows (row box.next_id)
      ∙ ground (
        arith,
        is,
        some_of-refuted (λ q. leb box.next_id q.id) (λ q. leb box.next_id q.id)
            (λ q. leb (suc box.next_id) q.id) box.rows (λ q below _. ground (arith, below)) h.1 h.1,
      ),
)

-- The specification: the rows that are added, column by column, with their ids from `id` on.
unfoldable pub added_rows : Text → Text → ℕ → Option ℕ → ℕ → List Destination → List OutboxRow
added_rows format payload now batch id [] = []
added_rows format payload now batch id (d ∷ destinations) = elim d.deleted_at [
  | some at ↦ added_rows format payload now batch id destinations
  | none ↦ elim d.enabled [
    | false ↦ added_rows format payload now batch id destinations
    | true ↦
        record {
          id = id;
          batch_id = batch;
          destination_id = d.id;
          payload = payload;
          payload_format = format;
          status = waiting;
          attempts = 0;
          next_attempt = now;
          first_attempt = now;
          last_error = [];
          created_at = now;
          delivered_at = none;
          lease_until = none;
          lease_token = [];
        }
        ∷ added_rows format payload now batch (suc id) destinations
  ]
]

added_rows-cases :
    (format payload : Text) (now : ℕ) (batch : Option ℕ) (id : ℕ) (d : Destination)
    (destinations : List Destination)
    → (is_active d ≡ true
        → added_rows format payload now batch id (d ∷ destinations)
          ≡ queued_row format payload now batch d.id id
            ∷ added_rows format payload now batch (suc id) destinations)
      × (is_active d ≡ false
          → added_rows format payload now batch id (d ∷ destinations)
            ≡ added_rows format payload now batch id destinations)
unfolding added_rows
added_rows-cases format payload now batch id d destinations =
    (λ active. ground (arith, active), λ skipped. ground (arith, skipped))

-- Queueing keeps the outbox in the order of its ids, and adds, behind the rows that are there, one
-- row for each destination that is enabled and not deleted, in their order: with the next ids, the
-- payload, its format and the batch as they are given, waiting, due at once, without an attempt, a
-- lease or an error.
pub enqueue_each-IsNumbered :
    (format payload : Text) (now : ℕ) (batch : Option ℕ) (destinations : List Destination)
    (box : Outbox)
    → IsNumbered box
    → IsNumbered (enqueue_each format payload now batch destinations box)
      × ((enqueue_each format payload now batch destinations box).rows
          ≡ box.rows ++ added_rows format payload now batch box.next_id destinations)
unfolding enqueue_each
enqueue_each-IsNumbered format payload now batch [] box h =
    (h, unfold added_rows in append_nil box.rows)
enqueue_each-IsNumbered format payload now batch (d ∷ destinations) box h =
    let spec = added_rows-cases format payload now batch box.next_id d destinations in
    elim (Bool-cases (is_active d)) [
      | inl active ↦
          let row = queued_row format payload now batch d.id in
          let (numbered, added) =
            enqueue_each-IsNumbered format payload now batch destinations (insert_row row box)
              (insert_row-IsNumbered row box refl h) in
          rw (active, spec.0 active)
            (
              numbered,
              added
                  ∙ append_assoc box.rows (row box.next_id)
                      (added_rows format payload now batch (suc box.next_id) destinations),
            )
      | inr skipped ↦
          rw (skipped, spec.1 skipped)
            (enqueue_each-IsNumbered format payload now batch destinations box h)
    ]

-- When the dead letters of a destination have been queued again, a second call at any time queues
-- none and leaves the outbox as it is.
pub retry_dead_outbox_again :
    (other_generation : ℕ → Bool) (now later destination_id n : ℕ) (destinations : List Destination)
    (rows rows' : List OutboxRow)
    → retry_dead_outbox other_generation now destination_id destinations rows ≡ (requeued n, rows')
    → retry_dead_outbox other_generation later destination_id destinations rows'
      ≡ (requeued 0, rows')
unfolding retry_dead_outbox retryable_dead
retry_dead_outbox_again other_generation now later destination_id n destinations rows rows' h =
    let test = is_retried other_generation destination_id in
    elim (Option-cases (find_row (is_destination destination_id) destinations)) [
      | inl missing ↦ absurd (cc (rw (retry_dead_outbox, missing) at h))
      | inr (d, found) ↦ elim (Bool-cases d.enabled) [
        | inr off ↦ absurd (cc (rw (retry_dead_outbox, found, off) at h))
        | inl on ↦
            let is : update_where test (fresh_row now) rows ≡ rows' =
              cc (rw (retry_dead_outbox, found, on) at h) in
            let left : some_of test rows' ≡ false = rw (sym is) (
              some_of-update_where test test (fresh_row now) rows (λ o picked. ground arith)
                (λ o skipped. skipped)) in
            let (none_counted, same) = update_where-none test (fresh_row later) rows' left in
            rw (retry_dead_outbox, found, on) (rw (none_counted, same) refl)
      ]
    ]

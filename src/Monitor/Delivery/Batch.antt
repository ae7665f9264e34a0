-- ===== src/Monitor/Delivery/Batch.antt =====
-- A tick of the delivery worker keeps the order of each destination and leaves no lease behind.
use tail_state.Prelude.{
  Bool, Bool-cases, Every, List, [], arith, contains, if◌then◌else◌, inl, inr, nat_beq, nat_eq,
  refl, string_eq, true, ℕ, ◌∷◌, ◌≡◌,
}
use tail_state.Text.{text_eq, text_ordered}
use tail_state.Store.Outbox.{OutboxRow}
use tail_state.Monitor.Delivery.{Step, Worker, deliver_item, deliver_items, released, tried}
use tail_state.Store.Outbox.Finish.{release_claimed}

-- No item of the log went out to one of the destinations.
abbrev pub QuietFor : (ℕ → Bool) → List (OutboxRow × Step) → Type 0
QuietFor held log =
    Every (λ (e : OutboxRow × Step). held e.0.destination_id ≡ true → e.1 ≡ released) log

-- After a failed send, no later item of the log goes out to its destination.
abbrev pub HoldsBack : List (OutboxRow × Step) → Type 0
HoldsBack [] = Unit
HoldsBack ((item, step) ∷ log) =
    (step ≡ tried true → QuietFor (λ d. nat_beq d item.destination_id) log) × HoldsBack log

QuietFor-mono :
    (held held' : ℕ → Bool) (log : List (OutboxRow × Step))
    → ((d : ℕ) → held d ≡ true → held' d ≡ true)
    → QuietFor held' log
    → QuietFor held log
QuietFor-mono held held' [] f h = tt
QuietFor-mono held held' (e ∷ log) f h =
    ((λ is. h.0 (f e.0.destination_id is)), QuietFor-mono held held' log f h.1)

contains-noted :
    (b : Bool) (d : ℕ) (failed : List ℕ) (x : ℕ)
    → contains failed x ≡ true
    → contains (if b then d ∷ failed else failed) x ≡ true
unfolding contains
contains-noted b d failed x h = ground (arith, h)

contains-failed :
    (b : Bool) (d : ℕ) (failed : List ℕ) (x : ℕ)
    → b ≡ true
    → nat_beq x d ≡ true
    → contains (if b then d ∷ failed else failed) x ≡ true
unfolding contains
contains-failed b d failed x h same = ground (arith, h, same)

deliver_items-quiet :
    (w : Worker) (failed : List ℕ) (items rows : List OutboxRow)
    → QuietFor (contains failed) (deliver_items w failed items rows).0
unfolding deliver_items
deliver_items-quiet w failed [] rows = tt
deliver_items-quiet w failed (item ∷ items) rows =
    elim (Bool-cases (contains failed item.destination_id)) [
      | inl held ↦
          rw held ((λ _. refl), deliver_items-quiet w failed items (release_claimed item rows).1)
      | inr free ↦
          let outcome = deliver_item w item rows in
          let failed' = if outcome.0 then item.destination_id ∷ failed else failed in
          rw free (
            (λ h. absurd (ground (arith, free, h))),
            QuietFor-mono (contains failed) (contains failed') _
                (contains-noted outcome.0 item.destination_id failed)
                (deliver_items-quiet w failed' items outcome.1),
          )
    ]

tried-injective : (a b : Bool) → tried a ≡ tried b → a ≡ b
tried-injective a b h = cc h

-- Once a send to a destination has failed, no later item of the batch goes out to it: each is
-- released.
pub deliver_items-HoldsBack :
    (w : Worker) (failed : List ℕ) (items rows : List OutboxRow)
    → HoldsBack (deliver_items w failed items rows).0
unfolding deliver_items
deliver_items-HoldsBack w failed [] rows = tt
deliver_items-HoldsBack w failed (item ∷ items) rows =
    elim (Bool-cases (contains failed item.destination_id)) [
      | inl held ↦ rw held (
        (λ h. absurd (cc h)),
        deliver_items-HoldsBack w failed items (release_claimed item rows).1,
      )
      | inr free ↦
          let outcome = deliver_item w item rows in
          let failed' = if outcome.0 then item.destination_id ∷ failed else failed in
          rw free (
            (λ h.
                QuietFor-mono (λ d. nat_beq d item.destination_id) (contains failed') _
                  (λ d.
                    contains-failed outcome.0 item.destination_id failed d
                      (tried-injective outcome.0 true h))
                  (deliver_items-quiet w failed' items outcome.1)),
            deliver_items-HoldsBack w failed' items outcome.1,
          )
    ]

-- ===== src/Store/Outbox/Queue.antt =====
-- After a pass of `ClaimDueOutbox`, nothing waits before a claimed notification.
use mathlib.Core.Path.{subst}
use tail_state.Prelude.{
  Bool, Every, Every-keep_if, Every-mono, List, Option, [], arith, false, if◌then◌else◌, inl, inr,
  keep_if, leb, nat_eq, not, refl, some, some_of, some_of-refuted, string_eq, suc, ℕ, ◌&&◌, ◌||◌,
  ◌∷◌, ◌≡◌,
}
use tail_state.Text.{Text, text_eq, text_ordered}
use tail_state.Store.Table.{some_of-update_where_fails, update_where}
use tail_state.Store.Outbox.{Destination, OutboxRow, is_waiting}
use tail_state.Store.Outbox.Claim.{
  bury_unreadable, claim_due_outbox, claim_limit, expired_row, is_abandoned, is_expired,
  is_readable, is_still_waiting, lease_items, leased_row, open_outbox, requeued_row, select_due,
  unreadable_row,
}
use tail_state.Store.Outbox.Order.{InOrder, in_batch, select_due-InOrder, waits_before}
use tail_state.Store.Outbox.Pass.{committed_claims-some, item_head}
use tail_state.Text.Truncate.{truncate}

-- What waits before `c` and is in neither of the lists that are still to be worked off.
abbrev left_behind : OutboxRow → List OutboxRow → List OutboxRow → OutboxRow → Bool
left_behind c unreadable items o =
    waits_before c o && not (in_batch unreadable o || in_batch items o)

in_batch-split :
    (p : OutboxRow → Bool) (batch : List OutboxRow) (o : OutboxRow)
    → in_batch batch o
      ≡ (in_batch (keep_if (λ s. not (p s)) batch) o || in_batch (keep_if p batch) o)
unfolding keep_if some_of
in_batch-split p [] o = refl
in_batch-split p (s ∷ batch) o = ground (arith, in_batch-split p batch o)

left_behind-unreadable :
    (c u : OutboxRow) (unreadable items : List OutboxRow) (set : OutboxRow → OutboxRow)
    (o : OutboxRow)
    → is_waiting (set o).status ≡ false
    → left_behind c (u ∷ unreadable) items o ≡ false
    → left_behind c unreadable items (if is_still_waiting u.id o then set o else o) ≡ false
unfolding some_of
left_behind-unreadable c u unreadable items set o moved quiet = ground (arith, moved, quiet)

left_behind-item :
    (c i : OutboxRow) (items : List OutboxRow) (set : OutboxRow → OutboxRow) (o : OutboxRow)
    → is_waiting (set o).status ≡ false
    → left_behind c [] (i ∷ items) o ≡ false
    → left_behind c [] items (if is_still_waiting i.id o then set o else o) ≡ false
unfolding some_of
left_behind-item c i items set o moved quiet = ground (arith, moved, quiet)

left_behind-none :
    (c : OutboxRow) (rows : List OutboxRow)
    → some_of (left_behind c [] []) rows ≡ false
    → some_of (waits_before c) rows ≡ false
left_behind-none c rows h =
    some_of-refuted (left_behind c [] []) (left_behind c [] []) (waits_before c) rows
      (λ o quiet _. unfold some_of in ground (arith, quiet)) h h

bury_unreadable-queue :
    (now : ℕ) (reason : OutboxRow → Text) (c : OutboxRow) (unreadable items rows : List OutboxRow)
    → some_of (left_behind c unreadable items) rows ≡ false
    → some_of (left_behind c [] items) (bury_unreadable now reason unreadable rows) ≡ false
unfolding bury_unreadable
bury_unreadable-queue now reason c [] items rows h = h
bury_unreadable-queue now reason c (u ∷ unreadable) items rows h =
    bury_unreadable-queue now reason c unreadable items _ (
      some_of-update_where_fails (left_behind c (u ∷ unreadable) items) (is_still_waiting u.id)
        (left_behind c unreadable items) _ rows
        (λ o.
          left_behind-unreadable c u unreadable items (unreadable_row now (truncate (reason u) 500))
            o refl)
        h)

lease_items-queue :
    (until : ℕ) (tokens : ℕ → Option Text) (i : ℕ) (c : OutboxRow)
    (items rows claims rows' : List OutboxRow)
    → lease_items until tokens i items rows ≡ some (claims, rows')
    → some_of (left_behind c [] items) rows ≡ false
    → some_of (waits_before c) rows' ≡ false
lease_items-queue until tokens i c [] rows claims rows' h quiet =
    let same : rows ≡ rows' = unfold lease_items in cc h in
    rw same at (left_behind-none c rows quiet)
lease_items-queue until tokens i c (o ∷ items) rows claims rows' h quiet =
    let (token, rest, drawn, tail, head) = item_head until tokens i o items rows claims rows' h in
    lease_items-queue until tokens (suc i) c items _ rest rows' tail (
      some_of-update_where_fails (left_behind c [] (o ∷ items)) (is_still_waiting o.id)
        (left_behind c [] items) (leased_row until token) rows
        (λ t. left_behind-item c o items (leased_row until token) t refl) quiet)

-- The claims of the loop are its items, or some of them, leased.
lease_items-Every :
    (P : OutboxRow → Type 0) (until : ℕ) (tokens : ℕ → Option Text) (i : ℕ)
    (items rows claims rows' : List OutboxRow)
    → ((token : Text) (o : OutboxRow) → P o → P (leased_row until token o))
    → lease_items until tokens i items rows ≡ some (claims, rows')
    → Every P items
    → Every P claims
lease_items-Every P until tokens i [] rows claims rows' keeps h all =
    let same : [] ≡ claims = unfold lease_items in cc h in subst (Every P) same tt
lease_items-Every P until tokens i (o ∷ items) rows claims rows' keeps h all =
    let (token, rest, drawn, tail, head) = item_head until tokens i o items rows claims rows' h in
    let others = lease_items-Every P until tokens (suc i) items _ rest rows' keeps tail all.1 in
    elim head [ inl kept ↦ rw kept (keeps token o all.0, others) | inr left ↦ rw left others ]

update_where-InOrder :
    (test : OutboxRow → Bool) (set : OutboxRow → OutboxRow) (rows : List OutboxRow)
    → ((o : OutboxRow) → (set o).id ≡ o.id)
    → InOrder rows
    → InOrder (update_where test set rows)
unfolding update_where
update_where-InOrder test set [] keeps h = tt
update_where-InOrder test set (t ∷ rows) keeps h = (
  some_of-update_where_fails (λ r. leb r.id t.id) test
      (λ r. leb r.id (if test t then set t else t).id) set rows
      (λ r older. ground (arith, older, keeps r, keeps t)) h.0,
  update_where-InOrder test set rows keeps h.1,
)

open_outbox-InOrder :
    (now : ℕ) (rows : List OutboxRow) → InOrder rows → InOrder (open_outbox now rows)
unfolding open_outbox expired_row
open_outbox-InOrder now rows h =
    update_where-InOrder (is_expired now) (expired_row now) _ (λ o. refl)
      (update_where-InOrder (is_abandoned now) requeued_row rows (λ o. refl) h)

-- When a pass over an outbox in the order of its ids commits, no older notification of the same
-- destination is left waiting before any that it claimed.
pub claim-keeps_order :
    (opens : ℕ → Text → Bool) (reason : OutboxRow → Text) (now limit lease : ℕ)
    (tokens : ℕ → Option Text) (destinations : List Destination)
    (rows claims rows' : List OutboxRow)
    → claim_due_outbox opens reason now limit lease tokens destinations rows ≡ (some claims, rows')
    → InOrder rows
    → Every (λ c. some_of (waits_before c) rows' ≡ false) claims
unfolding claim_due_outbox
claim-keeps_order opens reason now limit lease tokens destinations rows claims rows' h sorted =
    let readable = is_readable opens destinations in
    let open_rows = open_outbox now rows in
    let batch = select_due now (claim_limit limit) destinations open_rows in
    let run = committed_claims-some _ rows h in
    lease_items-Every (λ c. some_of (waits_before c) rows' ≡ false) _ tokens 0
      (keep_if readable batch) _ claims rows' (λ token o ok. ok) run
      (Every-keep_if readable _ batch (
        Every-mono _ _ batch
          (λ c ok. lease_items-queue _ tokens 0 c (keep_if readable batch) _ claims rows' run (
            bury_unreadable-queue now reason c (keep_if (λ o. not (readable o)) batch)
              (keep_if readable batch) open_rows
              (some_of-refuted _ _ _ open_rows
                (λ o quiet _. ground (arith, quiet, in_batch-split readable batch o)) ok ok)))
          (select_due-InOrder now (claim_limit limit) destinations open_rows
            (open_outbox-InOrder now rows sorted))))

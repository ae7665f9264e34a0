-- ===== src/Expiry/Once.antt =====
-- Each item and window is warned about once.
use tail_state.Expiry.{
  Alert, Item, Progress, State, alert_for, alerts_of, crossed, day, descending_unique, expires_text,
  key, plan, plan_item, plan_loop, second, tightest, warnings,
}
use tail_state.Prelude.{
  Dict, List, [], ap, arith, contains, contains-append, contains-keep_if, contains-sorted_set,
  descending, false, inl, inr, keep_if, leb, lookup, lookup-insert, ltb, nat_beq, nat_eq, refl,
  some, string_eq, true, ℕ, ◌&&◌, ◌*◌, ◌++◌, ◌+◌, ◌/◌, ◌<◌, ◌∙◌, ◌∷◌, ◌≡◌, ◌⊎◌,
}
use tail_state.Text.{Text, eq_text, eq_text_iff, text_eq, text_ordered}

abbrev pub AllItems : (Item → Type 0) → List Item → Type 0
AllItems P [] = Unit
AllItems P (i ∷ items) = P i × AllItems P items

-- No two items share a resource.
abbrev pub DistinctKeys : List Item → Type 0
DistinctKeys [] = Unit
DistinctKeys (i ∷ items) =
    AllItems (λ j. eq_text (key j) (key i) ≡ false) items × DistinctKeys items

-- The alert of the item records its expiry and the tightest of the windows it is inside of.
record IsRecorded (alerts : Dict Text Alert) (i : Item) (inside : List ℕ) : Type 0 where
  alert : Alert
  found : lookup alerts (key i) ≡ some alert
  expires : alert.expires ≡ expires_text i
  windowed : contains alert.windows (tightest inside) ≡ true

abbrev IsSettled : Dict Text Alert → Item → List ℕ → Type 0
IsSettled alerts i inside = (inside ≡ []) ⊎ IsRecorded alerts i inside

expires-alert_for :
    (alerts : Dict Text Alert) (i : Item) → (alert_for alerts i).expires ≡ expires_text i
unfolding alert_for
expires-alert_for alerts i = ground arith

-- What the round of another item leaves.
lookup-plan_item_other :
    (alerts : Dict Text Alert) (i : Item) (inside : List ℕ) (p : Progress) (k : Text)
    → eq_text (key i) k ≡ false
    → lookup (plan_item alerts i inside p).next k ≡ lookup p.next k
unfolding plan_item
lookup-plan_item_other alerts i [] p k other = refl
lookup-plan_item_other alerts i (w ∷ ws) p k other = rw lookup-insert (rw other)

lookup-plan_loop_other :
    (alerts : Dict Text Alert) (now : ℕ) (windows : List ℕ) (items : List Item) (p : Progress)
    (k : Text)
    → AllItems (λ j. eq_text (key j) k ≡ false) items
    → lookup (plan_loop alerts now windows items p).next k ≡ lookup p.next k
unfolding plan_loop
lookup-plan_loop_other alerts now windows [] p k h = refl
lookup-plan_loop_other alerts now windows (i ∷ items) p k h =
    lookup-plan_loop_other alerts now windows items (plan_item alerts i (crossed now windows i) p) k
      h.1
    ∙ lookup-plan_item_other alerts i (crossed now windows i) p k h.0

contains-tightest : (w : ℕ) (ws : List ℕ) → contains (w ∷ ws) (tightest (w ∷ ws)) ≡ true
unfolding contains
contains-tightest w [] = ground arith
contains-tightest w (v ∷ ws) = ground (arith, contains-tightest v ws)

contains-descending_unique :
    (values : List ℕ) (v : ℕ) → contains (descending_unique values) v ≡ contains values v && ltb 0 v
unfolding descending_unique
contains-descending_unique values v =
    contains-sorted_set descending (keep_if (λ v. ltb 0 v) values) v
    ∙ contains-keep_if (λ v. ltb 0 v) values v

-- The round of an item records it.
plan_item-IsRecorded :
    (alerts : Dict Text Alert) (i : Item) (w : ℕ) (ws : List ℕ) (p : Progress)
    → 0 < tightest (w ∷ ws)
    → IsRecorded (plan_item alerts i (w ∷ ws) p).next i (w ∷ ws)
unfolding plan_item
plan_item-IsRecorded alerts i w ws p pos = record {
  alert = record (alert_for alerts i) {
    windows = descending_unique ((alert_for alerts i).windows ++ w ∷ ws);
  };
  found = rw lookup-insert (rw (eq_text_iff (key i) (key i)).1 refl);
  expires = expires-alert_for alerts i;
  windowed =
      rw contains-descending_unique (rw contains-append (ground (arith, contains-tightest w ws)));
}

crossed-pos :
    (now : ℕ) (windows : List ℕ) (i : Item) (v : ℕ)
    → contains (crossed now (descending_unique windows) i) v ≡ true
    → 0 < v
unfolding crossed contains
crossed-pos now windows i v h = ground (
  arith,
  h,
  contains-keep_if (λ w. leb i.expires (now + w * day)) (descending_unique windows) v,
  contains-descending_unique windows v,
)

nat_beq_refl : (n : ℕ) → nat_beq n n ≡ true
nat_beq_refl n = ground arith

tightest-pos :
    (now : ℕ) (windows : List ℕ) (i : Item) (w : ℕ) (ws : List ℕ)
    → crossed now (descending_unique windows) i ≡ w ∷ ws
    → 0 < tightest (w ∷ ws)
tightest-pos now windows i w ws h =
    let inside = crossed now (descending_unique windows) i in
    crossed-pos now windows i (tightest (w ∷ ws))
      (ap (λ l. contains l (tightest (w ∷ ws))) h ∙ contains-tightest w ws)

loop-IsSettled :
    (alerts : Dict Text Alert) (now : ℕ) (windows : List ℕ) (items : List Item) (p : Progress)
    → DistinctKeys items
    → AllItems
        (λ i.
          IsSettled
            (plan_loop alerts now (descending_unique windows) items p).next
            i
            (crossed now (descending_unique windows) i))
        items
unfolding plan_loop
loop-IsSettled alerts now windows [] p h = tt
loop-IsSettled alerts now windows (i ∷ items) p h =
    let inside = crossed now (descending_unique windows) i in
    let p' = plan_item alerts i inside p in
    (
      settled inside refl p
          (lookup-plan_loop_other alerts now (descending_unique windows) items p' (key i) h.0),
      loop-IsSettled alerts now windows items p' h.1,
    )
  where
    settled :
        (inside : List ℕ)
        → crossed now (descending_unique windows) i ≡ inside
        → (p : Progress) {final : Dict Text Alert}
        → lookup final (key i) ≡ lookup (plan_item alerts i inside p).next (key i)
        → IsSettled final i inside
    settled [] e p kept = inl refl
    settled (w ∷ ws) e p kept =
        let r = plan_item-IsRecorded alerts i w ws p (tightest-pos now windows i w ws e) in
        inr (record {
          alert = r.alert;
          found = kept ∙ r.found;
          expires = r.expires;
          windowed = r.windowed;
        })

-- The round of a recorded item groups nothing.
grouped-plan_item :
    (alerts : Dict Text Alert) (i : Item) (inside : List ℕ) (p : Progress)
    → IsSettled alerts i inside
    → (plan_item alerts i inside p).grouped ≡ p.grouped
unfolding plan_item alert_for
grouped-plan_item alerts i [] p h = refl
grouped-plan_item alerts i (w ∷ ws) p (inl e) = absurd (cc e)
grouped-plan_item alerts i (w ∷ ws) p (inr r) =
    rw r.found (rw r.expires (rw (nat_beq_refl (i.expires / second)) (rw r.windowed)))

-- The windows that an item is inside of are the same, or it is inside of none any more.
abbrev pub NoNewWindow : ℕ → ℕ → List ℕ → Item → Type 0
NoNewWindow now later windows i =
    (crossed later windows i ≡ crossed now windows i) ⊎ (crossed later windows i ≡ [])

grouped-plan_loop :
    (alerts : Dict Text Alert) (now later : ℕ) (windows : List ℕ) (items : List Item) (p : Progress)
    → AllItems (λ i. IsSettled alerts i (crossed now windows i)) items
    → AllItems (NoNewWindow now later windows) items
    → (plan_loop alerts later windows items p).grouped ≡ p.grouped
unfolding plan_loop
grouped-plan_loop alerts now later windows [] p settled same = refl
grouped-plan_loop alerts now later windows (i ∷ items) p settled same =
    grouped-plan_loop alerts now later windows items
      (plan_item alerts i (crossed later windows i) p) settled.1 same.1
    ∙ grouped-plan_item alerts i (crossed later windows i) p (still same.0)
  where
    still : NoNewWindow now later windows i → IsSettled alerts i (crossed later windows i)
    still (inl e) = rw e settled.0
    still (inr none_left) = inl none_left

warnings-nil : (windows : List ℕ) → warnings [] windows ≡ []
unfolding warnings lookup
warnings-nil [] = refl
warnings-nil (w ∷ windows) = warnings-nil windows

-- After a plan, nothing is sent again for items of distinct resources until one of them crosses
-- another window: a plan from the saved state, at a time when each is inside of the same windows
-- or of none, has no warning.
pub plan-again :
    (previous : State) (generation : ℕ) (items : List Item) (windows : List ℕ) (now later : ℕ)
    → DistinctKeys items
    → AllItems (NoNewWindow now later (descending_unique windows)) items
    → (plan (plan previous generation items windows now).1 generation items windows later).0 ≡ []
unfolding plan
plan-again previous generation items windows now later distinct same =
    let alerts = alerts_of previous generation in
    let start : Progress = record { grouped = []; next = [] } in
    let windows' = descending_unique windows in
    let next = (plan_loop alerts now windows' items start).next in
    let settled = loop-IsSettled alerts now windows items start distinct in
    rw (nat_beq_refl generation) (
      rw (grouped-plan_loop next now later windows' items start settled same)
        (warnings-nil windows'))

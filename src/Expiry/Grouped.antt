-- ===== src/Expiry/Grouped.antt =====
-- Which warnings a plan sends, without its loop.
use mathlib.Core.List.{append-nil, append_assoc}
use tail_state.Expiry.{
  Alert, Item, Progress, State, Warning, alert_for, alerts_of, crossed, descending_unique, or_nil,
  plan, plan_item, plan_loop, sort_items, tightest, warnings,
}
use tail_state.Prelude.{
  Bool, Bool-cases, Dict, List, [], arith, contains, false, if◌then◌else◌, inl, inr, is_empty,
  keep_if, lookup, lookup-insert, nat_beq, nat_eq, not, refl, string_eq, ℕ, ◌&&◌, ◌++◌, ◌∙◌, ◌∷◌,
  ◌≡◌,
}
use tail_state.Text.{Text, text_eq, text_ordered}

-- The item's tightest window is `window`, and its alert does not have that window yet.
abbrev pub is_news : ℕ → List ℕ → Alert → Bool
is_news window [] alert = false
is_news window (w ∷ ws) alert =
    nat_beq (tightest (w ∷ ws)) window && not (contains alert.windows window)

abbrev pub is_warned : Dict Text Alert → ℕ → List ℕ → ℕ → Item → Bool
is_warned alerts now windows window i = is_news window (crossed now windows i) (alert_for alerts i)

-- The warnings by window, of the items for which it is news.
unfoldable pub warnings_due : Dict Text Alert → ℕ → List ℕ → List Item → List ℕ → List Warning
warnings_due alerts now windows items [] = []
warnings_due alerts now windows items (window ∷ rest) =
    let later = warnings_due alerts now windows items rest in
    let group = keep_if (is_warned alerts now windows window) items in
    if is_empty group
    then later
    else record { window_days = window; items = sort_items group } ∷ later

group-plan_item :
    (alerts : Dict Text Alert) (i : Item) (inside : List ℕ) (p : Progress) (window : ℕ)
    → or_nil (lookup (plan_item alerts i inside p).grouped window) ≡ (
        if is_news window inside (alert_for alerts i)
        then or_nil (lookup p.grouped window) ++ i ∷ []
        else or_nil (lookup p.grouped window))
unfolding plan_item
group-plan_item alerts i [] p window = refl
group-plan_item alerts i (w ∷ ws) p window =
    let t = tightest (w ∷ ws) in
    ground (arith, lookup-insert p.grouped t window (or_nil (lookup p.grouped t) ++ i ∷ []))

group-plan_loop :
    (alerts : Dict Text Alert) (now : ℕ) (windows : List ℕ) (items : List Item) (p : Progress)
    (window : ℕ)
    → or_nil (lookup (plan_loop alerts now windows items p).grouped window)
      ≡ or_nil (lookup p.grouped window) ++ keep_if (is_warned alerts now windows window) items
unfolding plan_loop keep_if
group-plan_loop alerts now windows [] p window = rw append-nil
group-plan_loop alerts now windows (i ∷ items) p window =
    group-plan_loop alerts now windows items (plan_item alerts i (crossed now windows i) p) window
    ∙ (rw group-plan_item (elim (Bool-cases (is_warned alerts now windows window i)) [
      | inl news ↦ rw news (rw append_assoc)
      | inr old ↦ rw old
    ]))

warnings-due :
    (alerts : Dict Text Alert) (now : ℕ) (windows : List ℕ) (items : List Item)
    (grouped : Dict ℕ (List Item)) (ws : List ℕ)
    → ((w : ℕ) → or_nil (lookup grouped w) ≡ keep_if (is_warned alerts now windows w) items)
    → warnings grouped ws ≡ warnings_due alerts now windows items ws
unfolding warnings warnings_due
warnings-due alerts now windows items grouped [] h = refl
warnings-due alerts now windows items grouped (w ∷ ws) h =
    rw (h w) (rw (warnings-due alerts now windows items grouped ws h))

pub plan-grouped :
    (previous : State) (generation : ℕ) (items : List Item) (windows : List ℕ) (now : ℕ)
    → (plan previous generation items windows now).0
      ≡ warnings_due
          (alerts_of previous generation)
          now
          (descending_unique windows)
          items
          (descending_unique windows)
unfolding plan lookup
plan-grouped previous generation items windows now =
    let alerts = alerts_of previous generation in
    let windows' = descending_unique windows in
    let start : Progress = record { grouped = []; next = [] } in
    warnings-due alerts now windows' items (plan_loop alerts now windows' items start).grouped
      windows' (λ w. group-plan_loop alerts now windows' items start w)

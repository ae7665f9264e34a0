-- ===== src/Tests/Expiry.antt =====
-- Expiry plans at concrete items.
use tail_state.Expiry.{
  Item, State, alert_for, auth_key, crossed, day, descending_unique, device, plan, plan_item,
  plan_loop, sort_items, warnings,
}
use tail_state.Prelude.{
  List, [], contains, inl, insert, keep_if, lookup, ltb, nat_eq, refl, sort, sorted_set, string_eq,
  unique, ℕ, ◌&&◌, ◌*◌, ◌∷◌, ◌≡◌,
}
use tail_state.Text.{eq_text, str, text_eq, text_ordered}
use tail_state.Expiry.Once.{AllItems, DistinctKeys, NoNewWindow, plan-again}
use tail_state.Expiry.Tightest.{IsDecreasing}
use tail_state.Expiry.Sent.{announced, plan-warnings}

abbrev laptop : Item
laptop = record {
  kind = device;
  id = str "n1";
  name = str "laptop";
  tags = [];
  expires = 100 * day;
}

abbrev ci_key : Item
ci_key = record { kind = auth_key; id = str "k1"; name = str "ci"; tags = []; expires = 90 * day }

abbrev both : List Item
both = laptop ∷ ci_key ∷ []

abbrev windows : List ℕ
windows = 14 ∷ 3 ∷ []

abbrev fresh : State
fresh = record { generation = 1; alerts = [] }

both-DistinctKeys : DistinctKeys both
unfolding eq_text
both-DistinctKeys = ((refl, tt), (tt, tt))

no_window : AllItems (NoNewWindow (88 * day) (89 * day) (descending_unique windows)) both
unfolding crossed descending_unique sorted_set unique sort keep_if contains
no_window = (inl refl, (inl refl, tt))

plan-again_example :
    (plan (plan fresh 1 both windows (88 * day)).1 1 both windows (89 * day)).0 ≡ []
plan-again_example =
    plan-again fresh 1 both windows (88 * day) (89 * day) both-DistinctKeys no_window

plan-warnings_example :
    (ws : List ℕ) × IsDecreasing ws
    × ((v : ℕ) → contains ws v ≡ (contains windows v && ltb 0 v))
    × ((plan fresh 1 both windows (88 * day)).0 ≡ announced fresh 1 windows (88 * day) both ws)
plan-warnings_example = plan-warnings fresh 1 both windows (88 * day)

-- Two days before its expiry the key is warned about in the narrow window, the laptop in the wide.
two_windows :
    (plan fresh 1 both windows (88 * day)).0
    ≡ record { window_days = 14; items = laptop ∷ [] }
      ∷ record { window_days = 3; items = ci_key ∷ [] }
      ∷ []
unfolding plan plan_loop plan_item crossed descending_unique alert_for warnings sort_items
    sorted_set unique sort keep_if contains lookup insert
two_windows = refl

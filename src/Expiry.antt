-- ===== src/Expiry.antt =====
-- internal/expiry/expiry.go: which expiry warnings are sent, and the state that keeps each from
-- being sent twice. A time is a number of nanoseconds.
pub mod Once
pub mod Grouped
pub mod Tightest
pub mod Sent
use tail_state.Prelude.{
  Bool, Dict, List, Option, [], contains, descending, false, if◌then◌else◌, insert, is_empty,
  keep_if, leb, lookup, ltb, max, nat_beq, nat_eq, none, some, sorted_set, stable_sort, string_eq,
  true, ℕ, ◌&&◌, ◌*◌, ◌++◌, ◌+◌, ◌-◌, ◌/◌, ◌∷◌,
}
use tail_state.Text.{Text, eq_text, lt_text, str, text_eq, text_ordered}

pub data Kind : Type 0 where
  device auth_key : Kind

abbrev pub kind_text : Kind → Text
kind_text device = str "device"
kind_text auth_key = str "auth_key"

abbrev pub second : ℕ
second = 1_000_000_000

abbrev pub day : ℕ
day = 24 * 60 * 60 * second

abbrev pub default_horizon_days : ℕ
default_horizon_days = 14

pub record Item : Type 0 where
  pub kind : Kind
  pub id : Text
  pub name : Text
  pub tags : List Text
  pub expires : ℕ

-- `Item.Key`.
abbrev pub key : Item → Text
key i = kind_text i.kind ++ (str "/" ++ i.id)

-- `Item.DaysLeft`: a time that is past leaves no day.
unfoldable pub days_left : ℕ → Item → ℕ
days_left now i = (i.expires - now) / day

-- The order of `sortItems`.
unfoldable pub item_before : Item → Item → Bool
item_before a b =
    if nat_beq a.expires b.expires
    then (if eq_text (kind_text a.kind) (kind_text b.kind)
        then lt_text a.id b.id
        else lt_text (kind_text a.kind) (kind_text b.kind))
    else ltb a.expires b.expires

unfoldable pub sort_items : List Item → List Item
unfolding item_before stable_sort
sort_items items = stable_sort item_before items

-- The items that have not expired and expire within the horizon.
unfoldable pub upcoming : ℕ → ℕ → List Item → List Item
unfolding sort_items keep_if
upcoming now horizon_days items =
    sort_items (keep_if (λ i. ltb now i.expires && leb i.expires (now + horizon_days * day)) items)

unfoldable pub widest : ℕ → List ℕ → ℕ
widest horizon [] = horizon
widest horizon (window ∷ windows) = widest (max horizon window) windows

unfoldable pub horizon_days : List ℕ → ℕ
unfolding widest
horizon_days windows =
    let horizon = widest 0 windows in if nat_beq horizon 0 then default_horizon_days else horizon

-- `Alert`. Its expiry is a text in RFC 3339, which shows whole seconds; it is kept here as their
-- number, and the zero value, with an empty text, as `none`.
pub record Alert : Type 0 where
  pub expires : Option ℕ
  pub windows : List ℕ

pub record State : Type 0 where
  pub generation : ℕ
  pub alerts : Dict Text Alert

pub record Warning : Type 0 where
  pub window_days : ℕ
  pub items : List Item

-- `descendingUnique`: positive windows, widest first.
unfoldable pub descending_unique : List ℕ → List ℕ
descending_unique values = sorted_set descending (keep_if (λ v. ltb 0 v) values)

-- The windows that the item is inside of; none once it has expired.
unfoldable pub crossed : ℕ → List ℕ → Item → List ℕ
crossed now windows i =
    if leb i.expires now then [] else keep_if (λ w. leb i.expires (now + w * day)) windows

-- `crossed[len(crossed)-1]` of a list that is not empty.
abbrev pub tightest : List ℕ → ℕ
tightest [] = 0
tightest (w ∷ []) = w
tightest (w ∷ v ∷ ws) = tightest (v ∷ ws)

abbrev pub expires_text : Item → Option ℕ
expires_text i = some (i.expires / second)

abbrev pub same_expiry : Option ℕ → Option ℕ → Bool
same_expiry none none = true
same_expiry (some a) (some b) = nat_beq a b
same_expiry _ _ = false

-- `previous.Alerts[key]`, started afresh when the expiry has changed.
unfoldable pub alert_for : Dict Text Alert → Item → Alert
alert_for alerts i =
    let found : Alert = elim (lookup alerts (key i)) [
      | none ↦ record { expires = none; windows = [] }
      | some a ↦ a
    ] in
    if same_expiry found.expires (expires_text i)
    then found
    else record { expires = expires_text i; windows = [] }

abbrev pub or_nil : Option (List Item) → List Item
or_nil none = []
or_nil (some items) = items

-- What the loop of `Plan` carries.
pub record Progress : Type 0 where
  pub grouped : Dict ℕ (List Item)
  pub next : Dict Text Alert

-- One round of the loop, for an item inside the windows `inside`.
unfoldable pub plan_item : Dict Text Alert → Item → List ℕ → Progress → Progress
plan_item alerts i [] p = p
plan_item alerts i (w ∷ ws) p =
    let inside = w ∷ ws in
    let alert = alert_for alerts i in
    let window = tightest inside in
    record {
      grouped =
          if contains alert.windows window
          then p.grouped
          else insert p.grouped window (or_nil (lookup p.grouped window) ++ i ∷ []);
      next =
          insert p.next (key i)
            (record alert { windows = descending_unique (alert.windows ++ inside) });
    }

unfoldable pub plan_loop : Dict Text Alert → ℕ → List ℕ → List Item → Progress → Progress
plan_loop alerts now windows [] p = p
plan_loop alerts now windows (i ∷ items) p =
    plan_loop alerts now windows items (plan_item alerts i (crossed now windows i) p)

unfoldable pub warnings : Dict ℕ (List Item) → List ℕ → List Warning
warnings grouped [] = []
warnings grouped (window ∷ windows) =
    let rest = warnings grouped windows in
    let group = or_nil (lookup grouped window) in
    if is_empty group
    then rest
    else record { window_days = window; items = sort_items group } ∷ rest

-- The alerts of another monitoring generation do not count.
abbrev pub alerts_of : State → ℕ → Dict Text Alert
alerts_of s generation = if nat_beq s.generation generation then s.alerts else []

unfoldable pub plan : State → ℕ → List Item → List ℕ → ℕ → List Warning × State
plan previous generation items windows now =
    let windows' = descending_unique windows in
    let p =
      plan_loop (alerts_of previous generation) now windows' items
        (record { grouped = []; next = [] }) in
    (warnings p.grouped windows', record { generation = generation; alerts = p.next })

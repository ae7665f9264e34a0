-- ===== src/Expiry/Sent.antt =====
-- Which warnings a plan sends, against a description of its own.
use tail_state.Prelude.{
  Bool, Bool-cases, Every, Every-mono, List, Option, Option-cases, [], ap, arith, contains,
  contains-keep_if, contains-sorted_set, descending, false, if◌then◌else◌, inl, inr, is_empty,
  keep_if, leb, lookup, ltb, nat_beq, nat_eq, none, not, refl, some, some_of, sorted_set-Increasing,
  string_eq, true, ℕ, ◌&&◌, ◌*◌, ◌+◌, ◌/◌, ◌∙◌, ◌∷◌, ◌≡◌,
}
use tail_state.Text.{text_eq, text_ordered}
use tail_state.Expiry.Tightest.{
  Decreasing-of, IsDecreasing, IsTightest, is_last, is_last-IsTightest, some_of-positive,
}
use tail_state.Expiry.Grouped.{is_news, is_warned, plan-grouped, warnings_due}
use tail_state.Expiry.{
  Alert, Item, State, Warning, alert_for, alerts_of, crossed, descending_unique, expires_text, key,
  plan, same_expiry, second, sort_items,
}

-- The item has not expired, and does at most so many days from now.
abbrev pub is_within : ℕ → Item → ℕ → Bool
is_within now i days = leb i.expires (now + days * 86_400_000_000_000)

-- The saved state has a warning of this item, by its key, for this window: from the same generation,
-- and for the same expiry in seconds.
unfoldable pub was_warned : State → ℕ → ℕ → Item → Bool
was_warned previous generation days i =
    nat_beq previous.generation generation && elim (lookup previous.alerts (key i)) [
      | none ↦ false
      | some alert ↦ elim alert.expires [
        | none ↦ false
        | some at ↦ nat_beq at (i.expires / 1_000_000_000) && contains alert.windows days
      ]
    ]

-- The description: an item that has not expired is warned of for a window that it is within, when it
-- is within no smaller positive one, and was not warned of for it.
abbrev pub is_announced : State → ℕ → List ℕ → ℕ → ℕ → Item → Bool
is_announced previous generation windows now days i =
    ltb now i.expires
    && is_within now i days
    && not (some_of (λ v. ltb 0 v && (ltb v days && is_within now i v)) windows)
    && not (was_warned previous generation days i)

-- One warning for each of the windows `ws` that has such an item.
unfoldable pub announced : State → ℕ → List ℕ → ℕ → List Item → List ℕ → List Warning
announced previous generation windows now items [] = []
announced previous generation windows now items (days ∷ ws) =
    let rest = announced previous generation windows now items ws in
    let group = keep_if (is_announced previous generation windows now days) items in
    if is_empty group then rest else record { window_days = days; items = sort_items group } ∷ rest

-- An alert for another expiry has no windows any more.
kept_windows :
    (expires : Option ℕ) (windows : List ℕ) (at days : ℕ)
    → contains (if same_expiry expires (some at) then windows else []) days
      ≡ elim expires [ none ↦ false | some e ↦ nat_beq e at && contains windows days ]
unfolding contains
kept_windows none windows at days = refl
kept_windows (some e) windows at days = elim (Bool-cases (nat_beq e at)) [
  | inl same ↦ rw same refl
  | inr other ↦ rw other refl
]

-- The alert of the saved state that the code looks at has the window exactly if it was warned of.
alert-was_warned :
    (previous : State) (generation days : ℕ) (i : Item)
    → contains (alert_for (alerts_of previous generation) i).windows days
      ≡ was_warned previous generation days i
unfolding alert_for was_warned
alert-was_warned previous generation days i =
    elim (Bool-cases (nat_beq previous.generation generation)) [
      | inr other ↦ rw other (unfold lookup contains in refl)
      | inl same ↦ elim (Option-cases (lookup previous.alerts (key i))) [
        | inl missing ↦ rw (same, missing) (unfold contains in refl)
        | inr (a, there) ↦
            rw (same, there)
              (ap (λ b. contains b days) (windows_of a)
                ∙ kept_windows a.expires a.windows (i.expires / second) days)
      ]
    ]
  where
    windows_of :
        (a : Alert)
        → (if same_expiry a.expires (expires_text i)
            then a
            else record { expires = expires_text i; windows = [] }).windows
          ≡ (if same_expiry a.expires (some (i.expires / second)) then a.windows else [])
    windows_of a = elim (Bool-cases (same_expiry a.expires (expires_text i))) [
      | inl same ↦ rw same refl
      | inr other ↦ rw other refl
    ]

is_news-last :
    (w : ℕ) (inside : List ℕ) (alert : Alert)
    → is_news w inside alert ≡ (is_last w inside && not (contains alert.windows w))
is_news-last w [] alert = refl
is_news-last w (v ∷ vs) alert = refl

-- The test of the code is that of the description.
is_warned-announced :
    (previous : State) (generation now : ℕ) (windows ws : List ℕ) (w : ℕ) (i : Item)
    → IsDecreasing ws
    → ((v : ℕ) → contains ws v ≡ (contains windows v && ltb 0 v))
    → contains ws w ≡ true
    → is_warned (alerts_of previous generation) now ws w i
      ≡ is_announced previous generation windows now w i
unfolding crossed IsTightest
is_warned-announced previous generation now windows ws w i decreasing same there =
    let p = is_within now i in
    let alert = alert_for (alerts_of previous generation) i in
    let lasts = is_last-IsTightest p w ws decreasing in
    let smaller = some_of-positive (λ v. ltb v w && p v) ws windows same in
    let warned = alert-was_warned previous generation w i in
    is_news-last w (crossed now ws i) alert ∙ (elim (Bool-cases (leb i.expires now)) [
      | inl past ↦
          let over : ltb now i.expires ≡ false = ground (arith, past) in rw (past, over) refl
      | inr ahead ↦
          let live : ltb now i.expires ≡ true = ground (arith, ahead) in
          rw (ahead, live, lasts, there, smaller, warned) refl
    ])

keep_if-same :
    (f g : Item → Bool) (items : List Item)
    → ((i : Item) → f i ≡ g i)
    → keep_if f items ≡ keep_if g items
unfolding keep_if
keep_if-same f g [] same = refl
keep_if-same f g (i ∷ items) same = rw (same i) (rw (keep_if-same f g items same) refl)

Every-members : (ws : List ℕ) → Every (λ v. contains ws v ≡ true) ws
unfolding contains
Every-members [] = tt
Every-members (w ∷ ws) = (
  ground arith,
  Every-mono (λ v. contains ws v ≡ true) (λ v. contains (w ∷ ws) v ≡ true) ws
      (λ v there. ground (arith, there)) (Every-members ws),
)

warnings_due-announced :
    (previous : State) (generation now : ℕ) (windows ws : List ℕ) (items : List Item) (vs : List ℕ)
    → IsDecreasing ws
    → ((v : ℕ) → contains ws v ≡ (contains windows v && ltb 0 v))
    → Every (λ v. contains ws v ≡ true) vs
    → warnings_due (alerts_of previous generation) now ws items vs
      ≡ announced previous generation windows now items vs
unfolding warnings_due announced
warnings_due-announced previous generation now windows ws items [] decreasing same all = refl
warnings_due-announced previous generation now windows ws items (w ∷ vs) decreasing same all =
    rw
      (
        keep_if-same (is_warned (alerts_of previous generation) now ws w)
            (is_announced previous generation windows now w) items
            (λ i. is_warned-announced previous generation now windows ws w i decreasing same all.0),
        warnings_due-announced previous generation now windows ws items vs decreasing same all.1,
      )
      refl

-- The warnings of a plan are, for each positive window, from the widest and without repetitions, the
-- sorted items that have not expired and are within the window, but within no smaller positive one,
-- and of which the saved state has no alert of the same generation and the same expiry in seconds
-- with the window; a window without such items has no warning.
pub plan-warnings :
    (previous : State) (generation : ℕ) (items : List Item) (windows : List ℕ) (now : ℕ)
    → (ws : List ℕ) × IsDecreasing ws
      × ((v : ℕ) → contains ws v ≡ (contains windows v && ltb 0 v))
      × ((plan previous generation items windows now).0
          ≡ announced previous generation windows now items ws)
unfolding descending_unique
plan-warnings previous generation items windows now =
    let positive = keep_if (λ v. ltb 0 v) windows in
    let ws = descending_unique windows in
    let decreasing = Decreasing-of ws (sorted_set-Increasing descending positive) in
    let same = λ (v : ℕ).
      contains-sorted_set descending positive v ∙ contains-keep_if (λ u. ltb 0 u) windows v in
    (
      ws,
      decreasing,
      same,
      plan-grouped previous generation items windows now
          ∙ warnings_due-announced previous generation now windows ws items ws decreasing same
              (Every-members ws),
    )

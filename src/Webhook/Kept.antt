-- ===== src/Webhook/Kept.antt =====
-- internal/webhook/webhook.go: the event types that `Verify` keeps are within the bounds of a value
-- of the metadata of internal/store/webhooks.go.
use tail_state.Prelude.{
  Bool, Bool-cases, Every, List, [], arith, every_of, false, inl, inr, is_empty, length, ltb,
  nat_eq, or_false, refl, string_eq, suc, take, true, zero, ℕ, ◌++◌, ◌-◌, ◌||◌, ◌∷◌, ◌≡◌,
}
use tail_state.Text.{Text, contains_any, is_control, text_eq, text_ordered}
use tail_state.Webhook.{Event, FallbackReason, max_event_type_len}
use tail_state.Webhook.Verify.{add_kept, kept_type, read_types}
use tail_state.Text.Truncate.{back_up, ellipsis, length-truncate, truncate}
use tail_state.Store.Metadata.{valid_value}

abbrev pub IsValid : Text → Type 0
IsValid value = valid_value value ≡ true

pub every_of-IsValid :
    (xs ys : List Text)
    → Every IsValid xs
    → Every IsValid ys
    → every_of valid_value (xs ++ ys) ≡ true
unfolding every_of
every_of-IsValid [] [] h k = refl
every_of-IsValid [] (y ∷ ys) h k = rw (k.0) (every_of-IsValid [] ys tt k.1)
every_of-IsValid (x ∷ xs) ys h k = rw (h.0) (every_of-IsValid xs ys h.1 k)

pub take-IsValid : (n : ℕ) (xs : List Text) → Every IsValid xs → Every IsValid (take n xs)
take-IsValid zero xs h = tt
take-IsValid (suc n) [] h = tt
take-IsValid (suc n) (x ∷ xs) h = (h.0, take-IsValid n xs h.1)

contains_any-take :
    (test : ℕ → Bool) (n : ℕ) (s : Text)
    → contains_any s test ≡ false
    → contains_any (take n s) test ≡ false
unfolding contains_any
contains_any-take test zero s h = refl
contains_any-take test (suc n) [] h = refl
contains_any-take test (suc n) (c ∷ s) h = ground (arith, h, contains_any-take test n s)

contains_any-ellipsis :
    (s : Text) → contains_any s is_control ≡ false → contains_any (s ++ ellipsis) is_control ≡ false
unfolding contains_any
contains_any-ellipsis [] h = refl
contains_any-ellipsis (c ∷ s) h = ground (arith, h, contains_any-ellipsis s)

contains_any-truncate :
    (s : Text) (n : ℕ)
    → contains_any s is_control ≡ false
    → contains_any (truncate s n) is_control ≡ false
unfolding truncate contains_any
contains_any-truncate s n h = ground (
  arith,
  h,
  contains_any-take is_control (back_up s n) s h,
  contains_any-ellipsis (take (back_up s (n - 3)) s)
      (contains_any-take is_control (back_up s (n - 3)) s h),
)

-- A type that is kept is one that is recorded.
add_kept-IsValid :
    (event_type : Text) (types : List Text)
    → Every IsValid types
    → Every IsValid (add_kept (kept_type event_type) types)
unfolding kept_type
add_kept-IsValid event_type types h =
    elim (Bool-cases (is_empty event_type || contains_any event_type is_control)) [
      | inl dropped ↦ rw dropped h
      | inr kept ↦
          let plain : contains_any event_type is_control ≡ false =
            (or_false (is_empty event_type) (contains_any event_type is_control) kept).1 in
          elim (Bool-cases (ltb max_event_type_len (length event_type))) [
            | inl long ↦
                rw (kept, long)
                  (
                    ground (
                      arith,
                      length-truncate event_type 128,
                      contains_any-truncate event_type 128 plain,
                    ),
                    h,
                  )
            | inr short ↦ rw (kept, short) (ground (arith, short, plain), h)
          ]
    ]

pub read_types-IsValid :
    (events : List Event) (reason : FallbackReason) → Every IsValid (read_types events reason).0
unfolding read_types
read_types-IsValid [] reason = tt
read_types-IsValid (event ∷ events) reason =
    add_kept-IsValid event.event_type _ (read_types-IsValid events _)

-- ===== src/Store/Sessions.antt =====
-- internal/store/sessions.go: the table `sessions`. `hash` is `secret.HashToken`; the tokens that are
-- drawn, and whether a best-effort write reaches the table, are arguments.
pub mod Idle
use tail_state.Prelude.{
  Bool, List, Option, [], false, if◌then◌else◌, is_empty, keep_if, leb, length, ltb, nat_eq, none,
  not, some, stable_sort, string_eq, take, true, ℕ, ◌&&◌, ◌*◌, ◌++◌, ◌+◌, ◌==◌, ◌∷◌,
}
use tail_state.Text.{Text, eq_text, text_eq, text_ordered}
use tail_state.Store.Table.{find_row, update_where}

-- Nanoseconds, and a number of characters.
abbrev pub session_lifetime : ℕ
session_lifetime = 12 * 3600 * 1000000000

abbrev pub session_idle_timeout : ℕ
session_idle_timeout = 60 * 60 * 1000000000

abbrev session_touch_interval : ℕ
session_touch_interval = 60 * 1000000000

abbrev session_ref_length : ℕ
session_ref_length = 12

abbrev max_listed_sessions : ℕ
max_listed_sessions = 200

-- A row of `sessions`; of a session from before schema v15 the last-seen time may be missing.
pub record SessionRow : Type 0 where
  pub token_hash : Text
  pub csrf_hash : Text
  pub expires_at : ℕ
  pub created_at : ℕ
  pub last_seen_at : Option ℕ

pub record SessionInfo : Type 0 where
  pub ref : Text
  pub created : ℕ
  pub last_seen : ℕ
  pub expires : ℕ
  pub idle_until : ℕ
  pub current : Bool

abbrev pub has_token : Text → SessionRow → Bool
has_token token_hash row = row.token_hash == token_hash

-- `sessionInfo`.
abbrev pub session_info : SessionRow → SessionInfo
session_info row =
    let seen : ℕ = elim row.last_seen_at [ none ↦ row.created_at | some at ↦ at ] in
    record {
      ref = take session_ref_length row.token_hash;
      created = row.created_at;
      last_seen = seen;
      expires = row.expires_at;
      idle_until = seen + session_idle_timeout;
      current = false;
    }

-- The last-seen time of the row is moved to now.
abbrev touch : ℕ → SessionRow → SessionRow
touch now row = record row { last_seen_at = some now }

abbrev touched : ℕ → SessionInfo → SessionInfo
touched now info = record info { last_seen = now; idle_until = now + session_idle_timeout }

module _ (hash : Text → Text) where
  -- `SessionRef`.
  unfoldable session_ref : Text → Text
  session_ref token = if is_empty token then [] else take session_ref_length (hash token)

  -- `CreateSession`, with the two tokens that it drew.
  unfoldable pub create_session : ℕ → Text → Text → List SessionRow → List SessionRow
  create_session now token csrf rows =
      rows
      ++ (record {
        token_hash = hash token;
        csrf_hash = hash csrf;
        expires_at = now + session_lifetime;
        created_at = now;
        last_seen_at = some now;
      })
        ∷ []

  -- `AuthenticateSession`, and what it leaves of the table; `writes` is whether its deletion or touch
  -- was made.
  unfoldable pub authenticate_session :
      Bool → ℕ → Text → Text → Bool → Bool → List SessionRow → Option SessionInfo × List SessionRow
  unfolding find_row keep_if update_where eq_text
  authenticate_session writes now token csrf require_csrf activity rows =
      let key = has_token (hash token) in
      if is_empty token then (none, rows) else elim (find_row key rows) [
        | none ↦ (none, rows)
        | some row ↦
            let info = session_info row in
            let seen = record info { current = true } in
            if not (ltb now info.expires)
            then (none, rows)
            else if not (ltb now info.idle_until)
            then (none, if writes then keep_if (λ r. not (key r)) rows else rows)
            else if require_csrf && not (hash csrf == row.csrf_hash)
            then (none, rows)
            else if activity && leb (info.last_seen + session_touch_interval) now && writes
            then (some (touched now seen), update_where key (touch now) rows)
            else (some seen, rows)
      ]

  -- `DeleteSession`.
  unfoldable pub delete_session : Text → List SessionRow → List SessionRow
  unfolding keep_if eq_text
  delete_session token rows = keep_if (λ r. not (has_token (hash token) r)) rows

  -- `RevokeOtherSessions`.
  unfoldable pub revoke_other_sessions : Text → List SessionRow → ℕ × List SessionRow
  unfolding keep_if eq_text
  revoke_other_sessions keep rows =
      let others = keep_if (λ r. not (has_token (hash keep) r)) rows in
      (length others, keep_if (has_token (hash keep)) rows)

  -- The sessions of the query that are not idle.
  unfoldable listed : ℕ → Text → List SessionRow → List SessionInfo
  listed now current [] = []
  listed now current (row ∷ rows) =
      let rest = listed now current rows in
      let info = session_info row in
      if ltb now info.idle_until
      then record info { current = row.token_hash == current } ∷ rest
      else rest

  -- `ListSessions`.
  unfoldable list_sessions : ℕ → Text → List SessionRow → List SessionInfo
  unfolding stable_sort keep_if listed eq_text
  list_sessions now current rows =
      let valid = keep_if (λ r. ltb now r.expires_at) rows in
      let newest = stable_sort (λ a b. ltb b.expires_at a.expires_at) valid in
      let key = if is_empty current then [] else hash current in
      stable_sort (λ a b. ltb b.last_seen a.last_seen)
        (listed now key (take max_listed_sessions newest))

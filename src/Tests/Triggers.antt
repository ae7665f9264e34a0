-- ===== src/Tests/Triggers.antt =====
-- The trigger ledger at concrete rows.
use tail_state.Store.Triggers.{
  Ledger, Trigger, is_decodable, lease_or_default, lease_row, processing, read_row, safe_error,
  second, with_names,
}
use tail_state.Prelude.{
  List, Option, [], arith, contains, every_of, false, if◌then◌else◌, keep_if, length, nat_beq,
  nat_eq, none, refl, replicate, some, sort, sorted_set, string_eq, true, unique, ℕ, ◌*◌, ◌+◌, ◌↔◌,
  ◌∷◌, ◌≡◌, ◌≤◌,
}
use tail_state.Text.{Text, contains_any, eq_text, lt_text, str, text_eq, text_ordered, trim_space}
use tail_state.Store.Triggers.Rows.{AllRows, DistinctIds, map_row, row_of, row_passes}
use tail_state.Store.Triggers.Claim.{
  claim_webhook_trigger, claim_webhook_triggers, committed, failed, has_due_webhook_triggers,
  lease_selected, read_claim, read_rows, reclaim,
}
use tail_state.Store.Triggers.Finish.{complete_claimed, retry_claimed}
use tail_state.Store.Triggers.Record.{
  insert_or_find, insert_unless, new_row, record_webhook_trigger, recorded_as,
}
use tail_state.Store.Triggers.Lease.{claim-refines, claim_row, is_claimed, is_leasable, reclaimed}
use tail_state.Store.Triggers.Fence.{OtherTokens, claim-exclusive, claim-fences}
use tail_state.Store.Triggers.Due.{has_due-exact}
use tail_state.Store.Triggers.Batch.{IsLeased, claim_all-IsLeased}
use tail_state.Store.Triggers.Once.{record-again}
use tail_state.Store.Table.{count_where, find_row, update_where}
use tail_state.Store.Metadata.{checked_names, decode_metadata, names_json, sorted_unique}
use tail_state.Model.Encoding.{join_list, quote}

abbrev hash_a : Text
hash_a = replicate 64 b'a'

abbrev delivery : Trigger
delivery = new_row 7 (10 * second) hash_a (str "nodeCreated" ∷ []) (str "devices" ∷ [])

abbrev table : List Trigger
table = delivery ∷ []

abbrev trusted : Text → Text
trusted message = message

table-DistinctIds : DistinctIds table
table-DistinctIds = (tt, tt)

claim-refines_example :
    (is_claimed (claim_webhook_trigger trusted (20 * second) 7 0 (some (str "t1")) table).0
      ≡ row_passes (is_leasable (20 * second)) (map_row (reclaimed (20 * second)) (row_of 7 table)))
    × (row_of 7 (claim_webhook_trigger trusted (20 * second) 7 0 (some (str "t1")) table).1 ≡ (
        if nat_beq 7 7
        then map_row
            (claim_row (20 * second) (20 * second + lease_or_default 0) (str "t1"))
            (row_of 7 table)
        else row_of 7 table))
claim-refines_example =
    claim-refines trusted (20 * second) 7 0 7 (str "t1") table table-DistinctIds (omega arith)

first_claim :
    is_claimed (claim_webhook_trigger trusted (20 * second) 7 0 (some (str "t1")) table).0 ≡ true
unfolding claim_webhook_trigger reclaim update_where count_where keep_if read_claim find_row
    read_row trim_space is_decodable with_names safe_error decode_metadata checked_names names_json
    join_list quote every_of contains_any sorted_unique sorted_set unique sort contains eq_text
    lt_text
first_claim = refl

abbrev leased : List Trigger
leased = (claim_webhook_trigger trusted (20 * second) 7 0 (some (str "t1")) table).1

claim-exclusive_example :
    (is_claimed (claim_webhook_trigger trusted (30 * second) 7 0 (some (str "t2")) leased).0
      ≡ false)
    × (row_of 7 (claim_webhook_trigger trusted (30 * second) 7 0 (some (str "t2")) leased).1
        ≡ row_of 7 leased)
claim-exclusive_example =
    claim-exclusive trusted (20 * second) 7 0 (str "t1") table table-DistinctIds (omega arith)
      first_claim (30 * second) 0 (str "t2") (omega arith)

abbrev stale : Trigger
stale = record delivery { status = processing; lease_token = str "t0" }

stale_token : OtherTokens (str "t1") (stale ∷ [])
unfolding eq_text
stale_token = (refl, tt)

claim-fences_example :
    (row_of 7 (complete_claimed (40 * second) (stale ∷ []) leased) ≡ row_of 7 leased)
    × (row_of 7
          (retry_claimed trusted (40 * second) (50 * second) (str "failed") (stale ∷ []) leased)
        ≡ row_of 7 leased)
claim-fences_example =
    claim-fences trusted (20 * second) 7 0 (str "t1") table table-DistinctIds (omega arith)
      first_claim (40 * second) (50 * second) (str "failed") (stale ∷ []) stale_token

abbrev tokens : ℕ → Option Text
tokens i = some (b't' ∷ i ∷ [])

has_due-exact_example :
    (has_due_webhook_triggers (20 * second) table ≡ false)
    ↔ (claim_webhook_triggers trusted (20 * second) 0 0 tokens table ≡ (some [], table))
has_due-exact_example = has_due-exact trusted (20 * second) 0 0 tokens table

abbrev leased_table : List Trigger
leased_table = lease_row (140 * second) (b't' ∷ 0 ∷ []) delivery ∷ []

batch :
    claim_webhook_triggers trusted (20 * second) 0 0 tokens table
    ≡ (some leased_table, leased_table)
unfolding claim_webhook_triggers reclaim update_where keep_if lease_selected committed read_rows
    read_row trim_space is_decodable with_names safe_error decode_metadata checked_names names_json
    join_list quote every_of contains_any sorted_unique sorted_set unique sort contains eq_text
    lt_text
batch = refl

claim_all-IsLeased_example :
    (length leased_table ≤ 64) × AllRows (IsLeased (20 * second) 0 table leased_table) leased_table
claim_all-IsLeased_example =
    claim_all-IsLeased trusted (20 * second) 0 0 tokens table leased_table leased_table
      table-DistinctIds batch

abbrev empty_ledger : Ledger
empty_ledger = record { rows = []; next_id = 7 }

abbrev one_row : Ledger
one_row = record { rows = table; next_id = 8 }

-- A damaged row makes its own delivery fail, and the ledger stays as it is.
abbrev damaged_row : Trigger
damaged_row = record delivery { event_types = record { bytes = 20_000; values = some [] } }

abbrev damaged_ledger : Ledger
damaged_ledger = record { rows = damaged_row ∷ []; next_id = 8 }

damaged_fails :
    record_webhook_trigger trusted (10 * second) hash_a [] [] damaged_ledger
    ≡ (none, damaged_ledger)
unfolding record_webhook_trigger insert_or_find insert_unless find_row recorded_as read_row
    trim_space is_decodable decode_metadata every_of sorted_unique sorted_set unique sort keep_if
    eq_text
damaged_fails = refl

-- The claim of a damaged row fails, and leaves the row as it is.
damaged_claim :
    claim_webhook_trigger trusted (20 * second) 7 0 (some (str "t1")) (damaged_row ∷ [])
    ≡ (failed, damaged_row ∷ [])
unfolding claim_webhook_trigger reclaim update_where count_where read_claim find_row read_row
    is_decodable decode_metadata
damaged_claim = refl

recorded :
    record_webhook_trigger trusted
      (10 * second)
      hash_a
      (str "nodeCreated" ∷ [])
      (str " devices " ∷ [])
      empty_ledger
    ≡ (some (delivery, true), one_row)
unfolding record_webhook_trigger trim_space every_of contains_any sorted_unique insert_or_find
    insert_unless read_row find_row recorded_as is_decodable with_names safe_error decode_metadata
    checked_names names_json join_list quote sorted_set unique sort keep_if contains eq_text lt_text
recorded = refl

record-again_example :
    record_webhook_trigger trusted
      (99 * second)
      hash_a
      (str "nodeCreated" ∷ [])
      (str " devices " ∷ [])
      one_row
    ≡ (some (delivery, false), one_row)
record-again_example =
    record-again trusted (10 * second) (99 * second) hash_a (str "nodeCreated" ∷ [])
      (str " devices " ∷ []) empty_ledger one_row delivery true recorded

-- ===== src/Model.antt =====
-- internal/model/model.go: changes, their fields, and the values of a snapshot.
pub mod Severity
pub mod Encoding
pub mod Diff
pub mod Normalize
pub mod Dns
use tail_state.Prelude.{
  Bool, List, Option, [], if◌then◌else◌, nat_beq, nat_eq, none, some, string_eq, ℕ, ◌||◌, ◌∷◌,
}
use tail_state.Text.{Text, eq_text, text_eq, text_ordered}

-- A decoded JSON value.
mutual
  pub data Json : Type 0 where
    json_null : Json
    json_bool : Bool → Json
    json_number : Text → Json
    json_string : Text → Json
    json_array : Elements → Json
    json_object : Members → Json

  pub data Elements : Type 0 where
    no_elements : Elements
    element : Json → Elements → Elements

  pub data Members : Type 0 where
    no_members : Members
    named : Text → Json → Members → Members

pub record FieldChange : Type 0 where
  pub field : Text
  pub old : Json
  pub new : Json
  pub old_present : Bool
  pub new_present : Bool

-- The part of a created resource's first snapshot that decides its severity.
pub record CreatedState : Type 0 where
  pub role : Text
  pub tagged : Bool
  pub key_expiry_disabled : Bool

-- A change, without the attribution and the share invites that only messages show.
pub record Change : Type 0 where
  pub kind : Text
  pub collector : Text
  pub resource_id : Text
  pub resource_type : Text
  pub name : Text
  pub fields : List FieldChange
  pub fields_truncated : Bool
  pub total_fields : ℕ
  pub created : Option CreatedState

-- A key that is written twice has its last value.
unfoldable pub member : Members → Text → Option Json
unfolding eq_text
member no_members key = none
member (named k v rest) key = elim (member rest key) [
  | some found ↦ some found
  | none ↦ if eq_text k key then some v else none
]

-- `FieldRoot`: the text before the first dot or bracket.
unfoldable pub field_root : Text → Text
field_root [] = []
field_root (c ∷ path) =
    let rest = field_root path in if nat_beq c b'.' || nat_beq c b'[' then [] else c ∷ rest

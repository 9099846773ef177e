-- ===== src/Json.antt =====
-- src/native/apxdb_json.h and apxdb_json.c: the JSON values, the parser and the two accessors.
pub mod Strings
pub mod Number
pub mod Parser
pub mod Depth
pub mod Shorter
pub mod Fuel
pub mod StringRound
use apx_db.Common.{ℕ, zero, suc, Bool, Option, none, some, if◌then◌else◌, Text}
use apx_db.Common.{text_eq}
use apx_db.Common.Int.{ℤ}

-- `apxdb_json_value_t`. The arrays of values and of members are lists of their own, since a type
-- cannot hold itself inside `List`.
mutual
  pub data Value (D : Type 0) : Type 0 where
    null : Value D
    bool : Bool → Value D
    number : Bool → ℤ → D → Value D
    string : Text → Value D
    array : Items D → Value D
    object : Members D → Value D

  pub data Items (D : Type 0) : Type 0 where
    no_items : Items D
    item : Value D → Items D → Items D

  pub data Members (D : Type 0) : Type 0 where
    no_members : Members D
    member : Text → Value D → Members D → Members D

module _ {D : Type 0} where
  -- The loop of `apxdb_json_object_get`.
  unfoldable pub find_member : Members D → Text → Option (Value D)
  find_member no_members name = none
  find_member (member n v ms) name = if text_eq n name then some v else find_member ms name

  unfoldable pub apxdb_json_object_get : Value D → Text → Option (Value D)
  unfolding find_member
  apxdb_json_object_get (object ms) name = find_member ms name
  apxdb_json_object_get _ name = none

  -- The bounds check and the subscript of `apxdb_json_array_get`.
  unfoldable nth_item : Items D → ℕ → Option (Value D)
  nth_item no_items i = none
  nth_item (item v vs) zero = some v
  nth_item (item v vs) (suc i) = nth_item vs i

  unfoldable apxdb_json_array_get : Value D → ℕ → Option (Value D)
  unfolding nth_item
  apxdb_json_array_get (array vs) i = nth_item vs i
  apxdb_json_array_get _ i = none

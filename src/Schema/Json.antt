-- ===== src/Schema/Json.antt =====
-- `serde_json::Value`. A number is carried by the text that it prints as; an object is its list of
-- fields in order.
use harness_agent_rs.Prelude.{Text, text_eq, Bool, true, false, Option, none, some, if◌then◌else◌}

mutual
  pub data Json : Type 0 where
    null : Json
    bool : Bool → Json
    number : Text → Json
    string : Text → Json
    array : Items → Json
    object : Fields → Json

  pub data Items : Type 0 where
    nil : Items
    cons : Json → Items → Items

  pub data Fields : Type 0 where
    end : Fields
    field : Text → Json → Fields → Fields

-- `Value::as_object`.
unfoldable pub as_object : Json → Option Fields
as_object (object fs) = some fs
as_object _ = none

-- `Map::get`.
unfoldable pub get_field : Text → Fields → Option Json
get_field k end = none
get_field k (field j v fs) = if text_eq j k then some v else get_field k fs

-- `Map::contains_key`.
unfoldable pub contains_key : Text → Fields → Bool
contains_key k end = false
contains_key k (field j v fs) = if text_eq j k then true else contains_key k fs

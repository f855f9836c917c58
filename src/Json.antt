-- ===== src/Json.antt =====
-- JSON documents as json.loads returns them, and the dictionary reads of the code. A number is
-- kept as its text, since the code modelled here never computes with one.
use stock_tracker_data_colle.Base.{String, Bool, Option, none, some, ◌==◌, if◌then◌else◌}

mutual
  pub data Json : Type 0 where
    null : Json
    bool : Bool → Json
    number : String → Json
    text : String → Json
    array : Items → Json
    object : Fields → Json

  pub data Items : Type 0 where
    nil : Items
    cons : Json → Items → Items

  pub data Fields : Type 0 where
    end : Fields
    field : String → Json → Fields → Fields

-- payload.get(key). The last of equal keys is the one that json.loads keeps, so keys are distinct.
abbrev pub get_key : String → Fields → Option Json
get_key key end = none
get_key key (field k v fields) = if k == key then some v else get_key key fields

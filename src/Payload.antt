-- ===== src/Payload.antt =====
-- ecommerce_super/easyecom/utils: the JSON trees that go to and come from EasyEcom. A number that is
-- not whole is not modelled.
pub mod Redaction
pub mod Path
use ecommerce_super.Base.{String, Bool, Option, none, some, str_eq, if◌then◌else◌, ℤ}

-- A dict is its items in order.
mutual
  pub data Json : Type 0 where
    null : Json
    flag : Bool → Json
    number : ℤ → Json
    text : String → Json
    array : Items → Json
    dict : Entries → Json

  pub data Items : Type 0 where
    no_items : Items
    item : Json → Items → Items

  pub data Entries : Type 0 where
    no_entries : Entries
    entry : String → Json → Entries → Entries

-- `d.get(key)`
unfoldable pub get : String → Entries → Option Json
get key no_entries = none
get key (entry k v es) = if str_eq k key then some v else get key es

-- ===== src/Json.antt =====
-- JSON values, as the program has them after `json.loads`: arguments of tools, payloads of actions.
pub mod Redact
mod Tests
use ops_inspection_system.Common.{
  ℕ, String, Bool, Option, none, some, ◌==◌, string_eq, if◌then◌else◌,
}

mutual
  pub data Json : Type 0 where
    null : Json
    bool : Bool → Json
    num : ℕ → Json
    str : String → Json
    arr : Items → Json
    obj : Fields → Json

  pub data Items : Type 0 where
    nil : Items
    cons : Json → Items → Items

  pub data Fields : Type 0 where
    end : Fields
    field : String → Json → Fields → Fields

-- `d.get(key)`
unfoldable pub get : Fields → String → Option Json
get end key = none
get (field k v d) key = if key == k then some v else get d key

-- `d[key] = value`
unfoldable pub put : Fields → String → Json → Fields
put end key value = field key value end
put (field k v d) key value = if key == k then field k value d else field k v (put d key value)

-- `d.pop(key, None)`
unfoldable pub pop : Fields → String → Fields
pop end key = end
pop (field k v d) key = let rest = pop d key in if key == k then rest else field k v rest

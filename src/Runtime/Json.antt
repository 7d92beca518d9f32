-- ===== src/Runtime/Json.antt =====
-- What `json.loads` returns, over floats `F`. A dictionary is its members in order, the keys
-- distinct.
use unidenr8_bluetooth.Prelude.{Bool, Option, none, some, if◌then◌else◌}
use unidenr8_bluetooth.Prelude.Int.{ℤ}
use unidenr8_bluetooth.Runtime.Text.{Text, text_eq}

mutual
  pub data Json (F : Type 0) : Type 0 where
    null : Json F
    bool : Bool → Json F
    int : ℤ → Json F
    float : F → Json F
    text : Text → Json F
    array : Items F → Json F
    object : Members F → Json F

  pub data Items (F : Type 0) : Type 0 where
    end_items : Items F
    item : Json F → Items F → Items F

  pub data Members (F : Type 0) : Type 0 where
    end_members : Members F
    member : Text → Json F → Members F → Members F

-- `payload.get(name)`
unfoldable pub get : {F : Type 0} → Text → Members F → Option (Json F)
get name end_members = none
get name (member key value members) = if text_eq key name then some value else get name members

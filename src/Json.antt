-- ===== src/Json.antt =====
-- What `json.loads` returns: values, with the keys of an object distinct and in order. The source
-- reads no more of a float than `int` does, so that one is kept by its integer part.
use ezhpcy.Prelude.{Option, none, some, Bool, if◌then◌else◌}
use ezhpcy.Prelude.Int.{ℤ}
use ezhpcy.Text.{Text, text_eq}

mutual
  pub data Json : Type 0 where
    null : Json
    bool : Bool → Json
    int float : ℤ → Json
    string : Text → Json
    array : Items → Json
    object : Fields → Json

  pub data Items : Type 0 where
    nil : Items
    cons : Json → Items → Items

  pub data Fields : Type 0 where
    end : Fields
    field : Text → Json → Fields → Fields

-- `d.get(key)`
unfoldable pub find : Text → Fields → Option Json
unfolding text_eq
find key end = none
find key (field k v rest) = if text_eq key k then some v else find key rest

-- ===== src/Json.antt =====
-- JSON values as the program holds them. A number that is no integer keeps its literal.
pub mod Access
use cachepilot.Prelude.{String, Bool}
use cachepilot.Prelude.Int.{ℤ}

mutual
  pub data Json : Type 0 where
    null : Json
    bool : Bool → Json
    int : ℤ → Json
    float : String → Json
    text : String → Json
    arr : Items → Json
    obj : Fields → Json

  pub data Items : Type 0 where
    nil : Items
    cons : Json → Items → Items

  -- The entries of an object, in order.
  pub data Fields : Type 0 where
    end : Fields
    field : String → Json → Fields → Fields

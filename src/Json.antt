-- ===== src/Json.antt =====
-- JSON documents as values, the form between the text on the wire and the structs of the program.
-- Numbers that are integers keep their value; `fraction` stands for every other number.
pub mod Decode
use devplat_agent.Base.Int.{ℤ}
use devplat_agent.Base.Text.{Bytes}
use devplat_agent.Base.{Bool, List, [], ◌∷◌}

mutual
  pub data Json : Type 0 where
    null : Json
    bool : Bool → Json
    num : ℤ → Json
    fraction : Json
    str : Bytes → Json
    arr : Items → Json
    obj : Fields → Json

  pub data Items : Type 0 where
    nil : Items
    cons : Json → Items → Items

  pub data Fields : Type 0 where
    end : Fields
    field : Bytes → Json → Fields → Fields

-- A JSON object with the given fields, in order.
abbrev pub object : List (Bytes × Json) → Fields
object [] = end
object ((k, v) ∷ fs) = field k v (object fs)

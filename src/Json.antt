-- ===== src/Json.antt =====
-- The values that `encoding/json` decodes into an `any` when numbers are kept as `json.Number`
-- (schema/parse.go calls `UseNumber`): what `Params` of an action or a guard holds.
use statesman.Base.{Bool, String}

-- A list of values and an object are types of the block, since a type may not hold a list of
-- itself. An object keeps its entries in order.
mutual
  pub data Json : Type 0 where
    null : Json
    boolean : Bool → Json
    number : String → Json
    text : String → Json
    array : Items → Json
    object : Fields → Json

  pub data Items : Type 0 where
    nil : Items
    cons : Json → Items → Items

  pub data Fields : Type 0 where
    end : Fields
    field : String → Json → Fields → Fields

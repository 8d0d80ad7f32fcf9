-- ===== src/Conversation/Values.antt =====
-- `ConversationJson` of src/features/conversation/contracts.ts, and the other values that a caller
-- may pass where the source says `unknown`.
use tea_desktop.Base.{Bool}
use tea_desktop.Base.Text.{Text}

-- A number, as far as the program looks at it: is it finite, and how does `String(n)` print it.
pub record JsNumber : Type 0 where
  pub finite : Bool
  pub printed : Text

-- `other` is a value that is no JSON: `undefined`, a function, a symbol, a big integer or an object
-- with a prototype of its own. Objects list their own properties in the order of `Object.entries`.
-- Cycles, symbol keys, hidden properties and arrays with holes are not represented.
mutual
  pub data Json : Type 0 where
    null : Json
    boolean : Bool → Json
    number : JsNumber → Json
    string : Text → Json
    array : Items → Json
    object : Fields → Json
    other : Json

  pub data Items : Type 0 where
    nil : Items
    cons : Json → Items → Items

  pub data Fields : Type 0 where
    end : Fields
    field : Text → Json → Fields → Fields

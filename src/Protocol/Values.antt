-- ===== src/Protocol/Values.antt =====
-- A decoded JSON value (Go's `interface{}`). A number is kept as the text of its literal.
use mcp_zero_trust_proxy.Base.{String, Bool}

mutual
  pub data Json : Type 0 where
    null : Json
    bool : Bool → Json
    num : String → Json
    str : String → Json
    arr : Items → Json
    obj : Fields → Json

  pub data Items : Type 0 where
    nil : Items
    cons : Json → Items → Items

  pub data Fields : Type 0 where
    end : Fields
    field : String → Json → Fields → Fields

-- ===== src/Python/Values.antt =====
-- The values that `json.loads` makes of a request's text.
use kernl.Prelude.{ℕ, String, Bool}
use kernl.Python.Numbers.{ℤ}

-- A `float` is its 64-bit pattern.
mutual
  pub data Json : Type 0 where
    null : Json
    boolean : Bool → Json
    int : ℤ → Json
    float : ℕ → Json
    str : String → Json
    arr : Items → Json
    obj : Fields → Json

  pub data Items : Type 0 where
    nil : Items
    cons : Json → Items → Items

  pub data Fields : Type 0 where
    end : Fields
    field : String → Json → Fields → Fields

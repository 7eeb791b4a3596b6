-- ===== src/Json/Value.antt =====
-- The data of include/co/json.h. An `int` is the bit pattern of an `int64_t`, a `double` that of a
-- `double`. The source's null pointer `_h` is `null`, and its null pointer `p` an empty sequence.
use cocoyaxi.Base.{ℕ, Bool, Option, Bytes}

mutual
  pub data Json : Type 0 where
    null : Json
    bool : Bool → Json
    int : ℕ → Json
    double : ℕ → Json
    string : Bytes → Json
    array : Items → Json
    object : Fields → Json

  pub data Items : Type 0 where
    nil : Items
    cons : Json → Items → Items

  pub data Fields : Type 0 where
    end : Fields
    field : Bytes → Json → Fields → Fields

-- What the source takes of the C library and of its vendored float printer: `strtod` on the text
-- that starts at a position, with `none` where it overflows, and the text of a double with at most
-- so many decimal places.
pub record FloatText : Type 0 where
  pub strtod : Bytes → Option ℕ
  pub dtoa : ℕ → ℕ → Bytes

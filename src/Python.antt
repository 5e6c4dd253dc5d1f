-- ===== src/Python.antt =====
-- What the code takes from the language and its libraries: `hashlib`, `json`, `str.lower`, the
-- readings of a number, and pydantic's reading of an integer field.
use cachepilot.Prelude.{String, Bool, Option}
use cachepilot.Prelude.Int.{ℤ}
use cachepilot.Json.{Json}

pub record Python (F D : Type 0) : Type 0 where
  -- The hex digest of the UTF-8 encoding.
  pub sha256 : String → String
  pub lower : String → String
  -- `json.dumps` with sorted keys and compact separators, and `json.loads`, which may refuse.
  pub dumps : Json → String
  pub loads : String → Option Json
  pub is_zero : String → Bool
  -- `int` of a text, which may refuse.
  pub int_of_text : String → Option ℤ
  -- `int` of a number literal: it may raise, it may refuse (a NaN), and it may give a value.
  pub int_of_float : String → Option (Option ℤ)
  -- `Decimal(str(value))`, which may refuse.
  pub decimal_of : Json → Option D
  pub int_field : Json → Option ℤ
  pub float_json : F → Json

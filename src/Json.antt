-- ===== src/Json.antt =====
-- Values of Go's `map[string]any`, as far as the program looks into them. A float64 is represented
-- by the two things that the program asks of it; an array or an object by its text.
use fluxplane_dex.Prelude.{String, Bool, Option}
use fluxplane_dex.Prelude.Int.{ℤ}
use fluxplane_dex.Maps.{Map}

pub record Float64 : Type 0 where
  pub truncated : ℤ
  pub is_zero : Bool

pub data Value : Type 0 where
  null : Value
  text : String → Value
  float : Float64 → Value
  int : ℤ → Value
  bool : Bool → Value
  nested : String → Value

abbrev pub Object : Type 0
Object = Map Value

-- encoding/json: the object that a text holds, where it holds one, and the text of an object.
pub record Codec : Type 0 where
  pub unmarshal : String → Option Object
  pub marshal : Object → String

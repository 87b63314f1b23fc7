-- ===== src/Gateway/Shapes/Defs.antt =====
-- The types of gateway/shapes.go and gateway/models.go that describe patterns.
use distributed_game_of_life.Prelude.{List}
use distributed_game_of_life.Prelude.Int.{ℤ}
use Prim.Native.String.{String}

-- CellOffset and off
pub record CellOffset : Type 0 where
  pub x : ℤ
  pub y : ℤ

pub record ShapeDef : Type 0 where
  pub label : String
  pub category : String
  pub cells : List CellOffset

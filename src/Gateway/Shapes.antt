-- ===== src/Gateway/Shapes.antt =====
-- gateway/shapes.go: lookup in the catalog, and the checks on patterns that a client makes up. The HTTP
-- handler that serves the catalog as JSON is not modelled.
pub mod Defs
pub mod Catalog
pub mod Validation
pub mod Affordable
pub use Defs.{CellOffset, ShapeDef}
use Catalog.{catalog}
use distributed_game_of_life.Prelude.{
  ℕ, Bool, true, false, ◌&&◌, ◌||◌, if◌then◌else◌, ltb, leb, length, List, [], ◌∷◌, ◌++◌, Option,
  none, some,
}
use distributed_game_of_life.Prelude.Int.{ℤ, pos, ltb_ℤ, eq_ℤ}
use Prim.Native.String.{String}
use text.Mathlib.Text.{◌==◌ as str_eq}

unfoldable pub find_shape : String → List (String × ShapeDef) → Option (List CellOffset)
find_shape name [] = none
find_shape name ((key, shape) ∷ rest) =
    if str_eq key name then some shape.cells else find_shape name rest

-- GetShape
unfoldable pub get_shape : String → Option (List CellOffset)
unfolding find_shape catalog
get_shape name = find_shape name catalog

abbrev pub max_custom_dim : ℕ
max_custom_dim = 99

abbrev pub max_custom_cells : ℕ
max_custom_cells = 10000

abbrev pub large_custom_threshold : ℕ
large_custom_threshold = 50

-- What ValidateCustomCells returns: the cells, or one of its error strings.
pub data Validated : Type 0 where
  valid : List CellOffset → Validated
  empty_piece out_of_bounds too_many_cells : Validated

abbrev pub cell_eq : CellOffset → CellOffset → Bool
cell_eq a b = eq_ℤ a.x b.x && eq_ℤ a.y b.y

-- A lookup in the set `seen`.
abbrev pub in_cells : CellOffset → List CellOffset → Bool
in_cells c [] = false
in_cells c (d ∷ ds) = cell_eq d c || in_cells c ds

unfoldable pub is_outside : CellOffset → Bool
is_outside c =
    ltb_ℤ c.x (pos 0)
    || ltb_ℤ (pos max_custom_dim) c.x
    || ltb_ℤ c.y (pos 0)
    || ltb_ℤ (pos max_custom_dim) c.y

-- The loop of ValidateCustomCells, with the keys seen and the cells kept so far.
unfoldable pub keep_cells : List CellOffset → List CellOffset → List CellOffset → Validated
unfolding is_outside
keep_cells [] seen out = if ltb max_custom_cells (length out) then too_many_cells else valid out
keep_cells (c ∷ cells) seen out =
    let skipped = keep_cells cells seen out in
    let kept = keep_cells cells (c ∷ seen) (out ++ c ∷ []) in
    if is_outside c then out_of_bounds else if in_cells c seen then skipped else kept

unfoldable pub validate_custom_cells : List CellOffset → Validated
unfolding keep_cells
validate_custom_cells [] = empty_piece
validate_custom_cells (c ∷ cells) = keep_cells (c ∷ cells) [] []

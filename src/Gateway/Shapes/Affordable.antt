-- ===== src/Gateway/Shapes/Affordable.antt =====
-- The catalog of gateway/shapes.go against the other limits: each pattern would pass as a custom piece,
-- and a full player bucket pays for it.
use distributed_game_of_life.Prelude.{
  ◌≡◌, sym, ◌∙◌, ◌≢◌, ◌≤◌, refl, arith, Bool, true, false, not, ◌&&◌, leb, length, List, [], ◌∷◌,
  some, Bool-cases, inl, inr, ap,
}
use mathlib.Core.Option.{some-injective}
use Prim.Native.String.{String}
use text.Mathlib.Text.{◌==◌ as str_eq}
use distributed_game_of_life.Ratelimit.{player_params}
use distributed_game_of_life.Gateway.Shapes.{
  CellOffset, ShapeDef, valid, find_shape, get_shape, validate_custom_cells,
}
use distributed_game_of_life.Gateway.Shapes.Catalog.{catalog}
use distributed_game_of_life.Gateway.Shapes.Validation.{any_outside, occurs, fresh, validate-inside}

-- No cell is in `seen`, and none occurs twice.
abbrev all_new : List CellOffset → List CellOffset → Bool
all_new seen [] = true
all_new seen (c ∷ cells) = not (occurs c seen) && all_new (c ∷ seen) cells

fresh_all : (seen cells : List CellOffset) → all_new seen cells ≡ true → fresh seen cells ≡ cells
unfolding fresh
fresh_all seen [] h = refl
fresh_all seen (c ∷ cells) h = elim (Bool-cases (occurs c seen)) [
  | inl again ↦ absurd (ground arith)
  | inr first ↦ rw first (ap (◌∷◌ c) (fresh_all (c ∷ seen) cells (ground arith)))
]

abbrev sound : List CellOffset → Bool
sound cells =
    leb 1 (length cells) && leb (length cells) 50 && not (any_outside cells) && all_new [] cells

abbrev all_sound : List (String × ShapeDef) → Bool
all_sound [] = true
all_sound ((key, shape) ∷ rest) = sound shape.cells && all_sound rest

both_true : (a b : Bool) → (a && b) ≡ true → (a ≡ true) × (b ≡ true)
both_true a b h = ground arith

all_sound_lem :
    (name : String) (cells : List CellOffset) (shapes : List (String × ShapeDef))
    → all_sound shapes ≡ true
    → find_shape name shapes ≡ some cells
    → sound cells ≡ true
unfolding find_shape
all_sound_lem name cells [] h e = absurd (cc)
all_sound_lem name cells ((key, shape) ∷ rest) h e = elim (Bool-cases (str_eq key name)) [
  | inl here ↦
      let same : some shape.cells ≡ some cells = rw here at e in
      rw (sym (some-injective shape.cells cells same))
        (both_true (sound shape.cells) (all_sound rest) h).0
  | inr other ↦
      all_sound_lem name cells rest (both_true (sound shape.cells) (all_sound rest) h).1
        (rw other at e)
]

sound_parts :
    (cells : List CellOffset)
    → sound cells ≡ true
    → (length cells ≤ 50) × (any_outside cells ≡ false) × (all_new [] cells ≡ true)
sound_parts cells h = ground arith

catalog_sound : all_sound catalog ≡ true
unfolding catalog
catalog_sound = refl

-- Each shape that GetShape finds passes ValidateCustomCells with its cells unchanged, and has no more
-- cells than a full player bucket has tokens, so that PLACE_SHAPE can charge for all of them.
pub get_shape-affordable :
    (name : String) (cells : List CellOffset)
    → get_shape name ≡ some cells
    → (validate_custom_cells cells ≡ valid cells) × (length cells ≤ player_params.capacity)
unfolding get_shape
get_shape-affordable name cells found =
    let ok = all_sound_lem name cells catalog catalog_sound found in
    let nonempty : cells ≢ [] = λ none_there. absurd (cc (rw none_there at ok)) in
    let parts = sound_parts cells ok in
    (validate-inside cells nonempty parts.1 ∙ ap valid (fresh_all [] cells parts.2), parts.0)

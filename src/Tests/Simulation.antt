-- ===== src/Tests/Simulation.antt =====
-- Tests of the models of simulation/: a chunk with a blinker on its east face and its neighbour there.
use distributed_game_of_life.Prelude.{◌+◌}
use distributed_game_of_life.Prelude.{
  ℕ, ◌<◌, ◌≡◌, ◌↔◌, refl, inl, inr, arith, true, false, ◌&&◌, ltb, contains, List, [], ◌∷◌, Ascends,
}
use distributed_game_of_life.Prelude.Int.{pos, negsuc, add64}
use distributed_game_of_life.Words.{for_each_bit, ones_count, shl}
use distributed_game_of_life.Words.LiveBits.{live_bits, each, for_each_bit_lem}
use distributed_game_of_life.Simulation.Chunk.{
  ChunkId, Rows, Chunk, offsets_to_rows, rows_to_offsets, pop_count, raise_bit,
}
use distributed_game_of_life.Simulation.Chunk.Cells.{cell, IsValid}
use distributed_game_of_life.Simulation.Chunk.Offsets.{
  offsets_to_rows_lem, offsets_to_rows-rows_to_offsets, rows_to_offsets-offsets_to_rows,
}
use distributed_game_of_life.Simulation.ChunkMap.{has_key}
use distributed_game_of_life.Simulation.Engine.{Halos, no_counts, tick_bitset, has_cells_near_edge}
use distributed_game_of_life.Simulation.Engine.Rules.{lives}
use distributed_game_of_life.Simulation.Engine.Shown.{IsNeighbour, live_neighbours}
use distributed_game_of_life.Simulation.Engine.{add_halos, add_to_scratch}
use distributed_game_of_life.Simulation.Engine.Scratch.{at}
use distributed_game_of_life.Simulation.Engine.Tick.{tick_bitset_lem}
use distributed_game_of_life.Simulation.Engine.Edge.{near_face, has_cells_near_edge_lem}

-- Cells (62, 1), (63, 1) of the chunk and (0, 1) of its east neighbour.
abbrev here : ChunkId
here = record { x = pos 0; y = negsuc 4 }

abbrev east : ChunkId
east = record { x = pos 1; y = negsuc 4 }

unfoldable west_rows : Rows
west_rows = offsets_to_rows (126 ∷ 127 ∷ [])

unfoldable east_rows : Rows
east_rows = offsets_to_rows (64 ∷ [])

west_rows-IsValid : IsValid west_rows
unfolding west_rows
west_rows-IsValid = (offsets_to_rows_lem (126 ∷ 127 ∷ [])).0

east_rows-IsValid : IsValid east_rows
unfolding east_rows
east_rows-IsValid = (offsets_to_rows_lem (64 ∷ [])).0

abbrev blinker : Chunk
blinker = record { id = here; rows = west_rows }

abbrev halos : Halos
halos = (east, east_rows) ∷ []

east-IsNeighbour : IsNeighbour here east
unfolding add64
east-IsNeighbour = record {
  dx = pos 1;
  dy = pos 0;
  step_x = inr (inr refl);
  step_y = inr (inl refl);
  apart = refl;
  at_x = refl;
  at_y = refl;
}

offsets_test : rows_to_offsets (offsets_to_rows (4095 ∷ 65 ∷ 4096 ∷ 65 ∷ [])) ≡ 65 ∷ 4095 ∷ []
unfolding rows_to_offsets offsets_to_rows raise_bit
offsets_test = refl

pop_count_test : pop_count blinker ≡ 2
unfolding pop_count west_rows offsets_to_rows raise_bit ones_count shl
pop_count_test = refl

near_edge_test : has_cells_near_edge west_rows (pos 1) (negsuc 0) ≡ true
unfolding has_cells_near_edge west_rows offsets_to_rows raise_bit
near_edge_test = refl

tick_bitset_lem_example :
    IsValid (tick_bitset here west_rows halos no_counts).0
    × ((x y : ℕ)
        → x < 64
        → y < 64
        → cell (tick_bitset here west_rows halos no_counts).0 x y
          ≡ lives (cell west_rows x y) (live_neighbours here west_rows halos x y))
    × ((tick_bitset here west_rows halos no_counts).1 ≡ no_counts)
    × ((x y : ℕ)
        → x < 64
        → y < 64
        → at
            (add_halos here halos (add_to_scratch no_counts west_rows (pos 1) (pos 1)))
            (x + 1)
            (y + 1)
          ≡ live_neighbours here west_rows halos x y)
unfolding has_key
tick_bitset_lem_example =
    tick_bitset_lem here west_rows halos (omega arith, omega arith) west_rows-IsValid
      (east-IsNeighbour, east_rows-IsValid, tt) (refl, tt)

has_cells_near_edge_lem_example : (has_cells_near_edge west_rows (pos 1) (pos 0) ≡ false) ↔ (
    (x y : ℕ)
    → near_face (pos 1) x ≡ true
    → near_face (pos 0) y ≡ true
    → cell west_rows x y ≡ false)
has_cells_near_edge_lem_example = has_cells_near_edge_lem west_rows (pos 1) (pos 0)

offsets_to_rows-rows_to_offsets_example : offsets_to_rows (rows_to_offsets west_rows) ≡ west_rows
offsets_to_rows-rows_to_offsets_example =
    offsets_to_rows-rows_to_offsets west_rows west_rows-IsValid

rows_to_offsets-offsets_to_rows_example :
    Ascends 0 4096 (rows_to_offsets (offsets_to_rows (4095 ∷ 65 ∷ 4096 ∷ 65 ∷ [])))
    × ((o : ℕ)
        → contains o (rows_to_offsets (offsets_to_rows (4095 ∷ 65 ∷ 4096 ∷ 65 ∷ [])))
          ≡ (ltb o 4096 && contains o (4095 ∷ 65 ∷ 4096 ∷ 65 ∷ [])))
rows_to_offsets-offsets_to_rows_example =
    rows_to_offsets-offsets_to_rows (4095 ∷ 65 ∷ 4096 ∷ 65 ∷ [])

for_each_bit_lem_example :
    for_each_bit 64 (λ x s. x ∷ s) 40 []
    ≡ each (λ (x : ℕ) (s : List ℕ). x ∷ s) (live_bits 64 0 40) []
for_each_bit_lem_example =
    for_each_bit_lem (λ (x : ℕ) (s : List ℕ). x ∷ s) 64 40 [] (omega arith) (omega arith)

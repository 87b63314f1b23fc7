-- ===== src/Simulation/Chunk/Population.antt =====
-- PopCount, which decides about hibernation, against the snapshot and the cells.
use distributed_game_of_life.Prelude.{ℕ, suc, ◌+◌, ◌*◌, ◌/◌, ◌%◌, ◌≡◌, refl, ◌∙◌, ap, sym, ◌↔◌}
use distributed_game_of_life.Prelude.{List, [], ◌∷◌, arith, map}
use distributed_game_of_life.Prelude.{length, length-append}
use distributed_game_of_life.Words.{ones_count}
use distributed_game_of_life.Words.LiveBits.{live_bits, length-live_bits}
use distributed_game_of_life.Simulation.Chunk.{
  Rows, Chunk, offset, pop_rows, pop_count, snapshot, rows_to_offsets, no_rows,
}
use distributed_game_of_life.Simulation.Chunk.Cells.{
  IsValid, no_rows-IsValid, cell-no_rows, cell_ext,
}
use distributed_game_of_life.Simulation.Chunk.Offsets.{
  row_offsets, offsets_from, rows_to_offsets-eq, rows_to_offsets_lem,
}

length-map : (f : ℕ → ℕ) (xs : List ℕ) → length (map f xs) ≡ length xs
length-map f [] = refl
length-map f (x ∷ xs) = ap suc (length-map f xs)

pop_rows_lem : (n y : ℕ) (rows : Rows) → pop_rows n rows ≡ n + length (offsets_from y rows)
unfolding pop_rows offsets_from row_offsets
pop_rows_lem n y [] = omega arith
pop_rows_lem n y (row ∷ rows) = omega (
  arith,
  pop_rows_lem (n + ones_count 64 row) (y + 1) rows,
  length-append (map (offset y) (live_bits 64 0 row)) (offsets_from (y + 1) rows),
  length-map (offset y) (live_bits 64 0 row),
  length-live_bits 64 0 row,
)

-- PopCount is the length of the snapshot.
pub pop_count-length-snapshot : (c : Chunk) → IsValid c.rows → pop_count c ≡ length (snapshot c)
unfolding pop_count snapshot
pop_count-length-snapshot c v =
    rw (rows_to_offsets-eq c.rows v) (pop_rows_lem 0 0 c.rows ∙ omega arith)

empty_of_length : (xs : List ℕ) → length xs ≡ 0 → xs ≡ []
empty_of_length [] e = refl
empty_of_length (x ∷ xs) e = absurd (omega arith)

pop_rows-dead : (n k : ℕ) → n ≡ 0 → pop_rows n (no_rows) ≡ 0
unfolding pop_rows ones_count
pop_rows-dead n k e = rw e refl

-- PopCount is 0 exactly when the chunk has no live cell: its rows are those of a new chunk.
pub pop_count-eq-zero_iff : (c : Chunk) → IsValid c.rows → (pop_count c ≡ 0) ↔ (c.rows ≡ no_rows)
unfolding pop_count snapshot
pop_count-eq-zero_iff c v = (
  λ none_live.
      let no_cells =
        empty_of_length (rows_to_offsets c.rows)
          (sym (pop_count-length-snapshot c v) ∙ none_live) in
      let listed = (rows_to_offsets_lem c.rows v).1 in
      cell_ext c.rows no_rows v no_rows-IsValid (λ x y hx hy.
        let column : (y * 64 + x) % 64 ≡ x = omega arith in
        let row : (y * 64 + x) / 64 ≡ y = omega arith in
        ground (arith, rw (column, row, no_cells) at (listed (y * 64 + x)), cell-no_rows x y)),
  λ e. rw e (pop_rows-dead 0 0 refl),
)

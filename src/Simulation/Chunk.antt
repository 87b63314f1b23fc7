-- ===== src/Simulation/Chunk.antt =====
-- simulation/chunk.go. A chunk's cells are 64 words, one to a row. Each method holds the chunk's lock
-- from its first to its last access of the cells, so it is one step here. The slice capacity that
-- RowsToOffsets computes beforehand is left out.
pub mod Cells
pub mod Offsets
pub mod Population
use Prim.Native.Nat.{bit_or}
use distributed_game_of_life.Prelude.{ℕ, zero, suc, ◌+◌, ◌*◌, ◌/◌, ◌%◌, ◌^◌, ◌≡◌, ◌<◌}
use distributed_game_of_life.Prelude.{Bool, ◌||◌, leb, ltb, if◌then◌else◌, List, [], ◌∷◌, ◌++◌}
use distributed_game_of_life.Prelude.{length, get_or, set, replicate}
use distributed_game_of_life.Prelude.Int.{ℤ}
use distributed_game_of_life.Words.{shl, and_not, ones_count, for_each_bit}

-- const ChunkSize
abbrev pub chunk_size : ℕ
chunk_size = 64

pub record ChunkId : Type 0 where
  pub x : ℤ
  pub y : ℤ

-- [ChunkSize]uint64
abbrev pub Rows : Type 0
Rows = List ℕ

-- The zero value of the array.
abbrev pub no_rows : Rows
no_rows = replicate chunk_size 0

pub record Chunk : Type 0 where
  pub id : ChunkId
  pub rows : Rows

unfoldable pub new_chunk : ℤ → ℤ → Chunk
new_chunk x y = record { id = record { x = x; y = y }; rows = no_rows }

-- c.rows[y] |= 1 << x
unfoldable pub raise_bit : Rows → ℕ → ℕ → Rows
raise_bit rows x y = set rows y (bit_or (get_or rows y 0) (shl 1 x))

-- c.rows[y] &^= 1 << x
unfoldable pub clear_bit : Rows → ℕ → ℕ → Rows
clear_bit rows x y = set rows y (and_not (get_or rows y 0) (shl 1 x))

unfoldable pub add_cell : Chunk → ℕ → ℕ → Chunk
add_cell c x y =
    if leb chunk_size x || leb chunk_size y then c else record c { rows = raise_bit c.rows x y }

unfoldable pub remove_cell : Chunk → ℕ → ℕ → Chunk
remove_cell c x y =
    if leb chunk_size x || leb chunk_size y then c else record c { rows = clear_bit c.rows x y }

unfoldable pub set_rows : Chunk → Rows → Chunk
set_rows c rows = record c { rows = rows }

-- The loop of PopCount, with the count so far.
unfoldable pub pop_rows : ℕ → Rows → ℕ
pop_rows n [] = n
pop_rows n (row ∷ rows) = pop_rows (n + ones_count 64 row) rows

unfoldable pub pop_count : Chunk → ℕ
unfolding pop_rows
pop_count c = pop_rows 0 c.rows

-- uint16(y)*ChunkSize + uint16(x)
unfoldable pub offset : ℕ → ℕ → ℕ
offset y x = (y % 2 ^ 16 * chunk_size % 2 ^ 16 + x % 2 ^ 16) % 2 ^ 16

-- The loop of RowsToOffsets from row `y`, with the slice so far.
unfoldable pub append_offsets : ℕ → Rows → List ℕ → List ℕ
unfolding for_each_bit offset
append_offsets y [] out = out
append_offsets y (row ∷ rows) out =
    append_offsets (y + 1) rows (for_each_bit 64 (λ x o. o ++ offset y x ∷ []) row out)

unfoldable pub rows_to_offsets : Rows → List ℕ
unfolding append_offsets
rows_to_offsets rows = append_offsets 0 rows []

unfoldable pub snapshot : Chunk → List ℕ
unfolding rows_to_offsets
snapshot c = rows_to_offsets c.rows

-- The loop of OffsetsToRows, with the rows so far.
unfoldable pub raise_offsets : List ℕ → Rows → Rows
raise_offsets [] rows = rows
raise_offsets (off ∷ offsets) rows = raise_offsets offsets (
    if ltb (off / chunk_size) chunk_size
    then raise_bit rows (off % chunk_size) (off / chunk_size)
    else rows)

unfoldable pub offsets_to_rows : List ℕ → Rows
unfolding raise_offsets
offsets_to_rows offsets = raise_offsets offsets no_rows

-- The value that MarshalJSON hands to the JSON encoder.
pub record ChunkAlias : Type 0 where
  pub x : ℤ
  pub y : ℤ
  pub active_count : ℕ
  pub cells : List ℕ

unfoldable pub marshal_alias : Chunk → ChunkAlias
unfolding snapshot
marshal_alias c =
    let cells = snapshot c in
    record { x = c.id.x; y = c.id.y; active_count = length cells; cells = cells }

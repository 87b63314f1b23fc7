-- ===== src/Simulation/Engine.antt =====
-- simulation/engine.go: neighbour counting in the padded scratch grid, the rules, and the test that
-- skips halo exchange. `int` arithmetic wraps at 64 bits and the counts at 8. A Go map is a list of
-- its entries in the order of the iteration, which Go leaves open.
pub mod Scratch
pub mod Placement
pub mod Rules
pub mod Shown
pub mod Tick
pub mod Edge
use Prim.Native.Nat.{bit_and, bit_or}
use distributed_game_of_life.Prelude.{
  ℕ, zero, suc, ◌+◌, ◌-◌, ◌*◌, ◌/◌, ◌%◌, ◌^◌, Bool, true, false, not, ◌&&◌, ◌||◌,
}
use distributed_game_of_life.Prelude.{
  leb, ltb, ◌==◌, if◌then◌else◌, List, [], ◌∷◌, get_or, set, replicate, for_below,
}
use distributed_game_of_life.Prelude.Int.{
  ℤ, pos, negsuc, pos_part, neg_part, ltb_ℤ, eq_ℤ, add64, sub64, mul64,
}
use distributed_game_of_life.Words.{shl, shr, all_ones, for_each_bit}
use distributed_game_of_life.Simulation.Chunk.{ChunkId, Rows, chunk_size, no_rows}

-- TickScratch.counts, a [66 * 66]uint8
abbrev pub Counts : Type 0
Counts = List ℕ

-- The zero value of the buffer.
unfoldable pub no_counts : Counts
no_counts = replicate (66 * 66) 0

-- if nx >= 0 && nx < 66 { counts[base+nx]++ }
unfoldable pub bump_cell : ℤ → ℤ → Counts → Counts
bump_cell nx ny counts =
    let i = pos_part ny * 66 + pos_part nx in
    if not (ltb_ℤ nx (pos 0)) && ltb_ℤ nx (pos 66)
    then set counts i ((get_or counts i 0 + 1) % 2 ^ 8)
    else counts

-- The body of the loop over dx.
unfoldable pub bump_dx : ℤ → ℤ → ℤ → ℤ → Counts → Counts
unfolding bump_cell
bump_dx pad_x ny dy dx counts =
    if eq_ℤ dx (pos 0) && eq_ℤ dy (pos 0) then counts else bump_cell (add64 pad_x dx) ny counts

-- The body of the loop over dy: dx runs from -1 to 1.
unfoldable pub bump_dy : ℤ → ℤ → ℤ → Counts → Counts
unfolding bump_dx
bump_dy pad_x pad_y dy counts =
    let ny = add64 pad_y dy in
    if ltb_ℤ ny (pos 0) || not (ltb_ℤ ny (pos 66))
    then counts
    else bump_dx pad_x ny dy (pos 1)
        (bump_dx pad_x ny dy (pos 0) (bump_dx pad_x ny dy (negsuc 0) counts))

-- The loop over dy, from -1 to 1.
unfoldable pub bump : ℤ → ℤ → Counts → Counts
unfolding bump_dy
bump pad_x pad_y counts =
    bump_dy pad_x pad_y (pos 1)
      (bump_dy pad_x pad_y (pos 0) (bump_dy pad_x pad_y (negsuc 0) counts))

-- The body of addToScratch's loop over the rows.
unfoldable pub add_row : Rows → ℤ → ℤ → ℕ → Counts → Counts
unfolding bump for_each_bit
add_row rows off_x off_y local_y counts =
    let row = get_or rows local_y 0 in
    if row == 0
    then counts
    else for_each_bit 64 (λ local_x. bump (add64 off_x (pos local_x)) (add64 off_y (pos local_y)))
        row counts

unfoldable pub add_to_scratch : Counts → Rows → ℤ → ℤ → Counts
unfolding add_row
add_to_scratch counts rows off_x off_y = for_below (add_row rows off_x off_y) 64 counts

-- map[ChunkID][ChunkSize]uint64
abbrev pub Halos : Type 0
Halos = List (ChunkId × Rows)

-- 1 + int(nid.X-id.X)*ChunkSize
unfoldable pub halo_offset : ℤ → ℤ → ℤ
halo_offset n own = add64 (pos 1) (mul64 (sub64 n own) (pos chunk_size))

unfoldable pub add_halos : ChunkId → Halos → Counts → Counts
unfolding add_to_scratch halo_offset
add_halos id [] counts = counts
add_halos id ((nid, nrows) ∷ halos) counts =
    add_halos id halos
      (add_to_scratch counts nrows (halo_offset nid.x id.x) (halo_offset nid.y id.y))

-- The body of the inner loop of step 2: newRow |= 1 << x where the rules say so.
unfoldable pub apply_rule : Counts → ℕ → ℕ → ℕ → ℕ → ℕ
unfolding shl
apply_rule counts src_row base x new_row =
    let count = get_or counts (base + (x + 1)) 0 in
    if count == 3 || count == 2 && bit_and (shr src_row x) 1 == 1
    then bit_or new_row (shl 1 x)
    else new_row

unfoldable pub next_row : Counts → Rows → ℕ → ℕ
unfolding apply_rule
next_row counts rows y = for_below (apply_rule counts (get_or rows y 0) ((y + 1) * 66)) 64 0

unfoldable pub next_rows : Counts → Rows → Rows
unfolding next_row
next_rows counts rows = for_below (λ y next. set next y (next_row counts rows y)) 64 no_rows

-- The new rows, and the scratch buffer for the next call.
unfoldable pub tick_bitset : ChunkId → Rows → Halos → Counts → Rows × Counts
unfolding add_to_scratch add_halos next_rows
tick_bitset id rows halos scratch =
    let own = add_to_scratch scratch rows (pos 1) (pos 1) in
    (next_rows (add_halos id halos own) rows, no_counts)

-- const near
abbrev pub near : ℕ
near = 2

unfoldable pub column_mask : ℤ → ℕ
unfolding shl
column_mask dx =
    if eq_ℤ dx (negsuc 0)
    then 2 ^ (near + 1) - 1
    else if eq_ℤ dx (pos 1)
    then shl all_ones (chunk_size - 1 - near)
    else all_ones

unfoldable pub first_row : ℤ → ℕ
first_row dy = if eq_ℤ dy (pos 1) then chunk_size - 1 - near else 0

unfoldable pub last_row : ℤ → ℕ
last_row dy = if eq_ℤ dy (negsuc 0) then near else chunk_size - 1

-- for y := yMin; y <= yMax; y++, with `n` rounds to go
unfoldable pub any_row : Rows → ℕ → ℕ → ℕ → Bool
any_row rows mask zero y = false
any_row rows mask (suc n) y =
    let rest = any_row rows mask n (y + 1) in
    if bit_and (get_or rows y 0) mask == 0 then rest else true

unfoldable pub has_cells_near_edge : Rows → ℤ → ℤ → Bool
unfolding column_mask first_row last_row any_row
has_cells_near_edge rows dx dy =
    any_row rows (column_mask dx) (last_row dy + 1 - first_row dy) (first_row dy)

-- ===== src/Simulation/Engine/Edge.antt =====
-- hasCellsNearEdge, and why TickAll may skip the halos that it rules out.
use Prim.Native.Nat.{bit_and}
use distributed_game_of_life.Prelude.{ℕ, zero, suc, ◌+◌, ◌-◌, ◌≡◌, ◌↔◌, inl, inr, refl, ◌∙◌, sym}
use distributed_game_of_life.Prelude.{
  Bool, true, false, ◌&&◌, leb, ltb, ◌==◌, if◌then◌else◌, get_or, arith, Bool-cases, ==→≡,
}
use distributed_game_of_life.Prelude.Int.{ℤ, pos, negsuc, eq_ℤ}
use distributed_game_of_life.Words.Bits.{test_bit}
use distributed_game_of_life.Words.Masks.{test_bit-low_mask, test_bit-shifted, masked_zero_iff}
use distributed_game_of_life.Simulation.Chunk.{Rows}
use distributed_game_of_life.Simulation.Chunk.Cells.{cell}
use distributed_game_of_life.Simulation.Engine.{
  column_mask, first_row, last_row, any_row, has_cells_near_edge,
}

-- Coordinate `k` is within two cells of the face on side `d`; there is no face for d = 0.
abbrev pub near_face : ℤ → ℕ → Bool
near_face d k =
    if eq_ℤ d (negsuc 0) then leb k 2 else if eq_ℤ d (pos 1) then leb 61 k && ltb k 64 else ltb k 64

test_bit-column_mask : (dx : ℤ) (x : ℕ) → test_bit (column_mask dx) x ≡ near_face dx x
unfolding column_mask
test_bit-column_mask dx x = elim (Bool-cases (eq_ℤ dx (negsuc 0))) [
  | inl west ↦ rw (column_mask, west) (test_bit-low_mask 3 x ∙ ground arith)
  | inr not_west ↦ elim (Bool-cases (eq_ℤ dx (pos 1))) [
    | inl east ↦
        rw (column_mask, not_west, east)
          (test_bit-shifted 7 61 x ∙ ground (arith, test_bit-low_mask 3 (x - 61)))
    | inr neither ↦ rw (column_mask, not_west, neither) (test_bit-low_mask 64 x)
  ]
]

-- A round of the loop goes on exactly if the row has no masked cell.
any_row-suc :
    (rows : Rows) (mask n y : ℕ)
    → (any_row rows mask (suc n) y ≡ false)
      ↔ (((bit_and (get_or rows y 0) mask == 0) ≡ true) × (any_row rows mask n (y + 1) ≡ false))
unfolding any_row
any_row-suc rows mask n y = ground arith

any_row_iff :
    (rows : Rows) (mask n y : ℕ)
    → (any_row rows mask n y ≡ false) ↔ (
        (x j : ℕ)
        → test_bit mask x ≡ true
        → (leb y j && ltb j (y + n)) ≡ true
        → cell rows x j ≡ false)
unfolding any_row cell
any_row_iff rows mask zero y = (λ h x j m inside. absurd (ground arith), λ h. refl)
any_row_iff rows mask (suc n) y =
    let rest = any_row_iff rows mask n (y + 1) in
    let here = masked_zero_iff (get_or rows y 0) mask in
    (
      λ h x j m inside.
          let both = (any_row-suc rows mask n y).0 h in
          elim (Bool-cases (y == j)) [
            | inl same ↦ rw (==→≡ y j same) at (here.0 both.0 x m)
            | inr other ↦ rest.0 both.1 x j m (ground arith)
          ],
      λ h.
          (any_row-suc rows mask n y).1 (
            here.1 (λ x m. h x y m (ground arith)),
            rest.1 (λ x j m inside. h x j m (ground arith)),
          ),
    )

rows_near :
    (dy : ℤ) (j : ℕ)
    → (leb (first_row dy) j && ltb j (first_row dy + (last_row dy + 1 - first_row dy)))
      ≡ near_face dy j
unfolding first_row last_row
rows_near dy j = ground arith

-- hasCellsNearEdge is false exactly when no live cell lies within two cells of the face towards the
-- neighbour at offset (dx, dy): of the corner, for a diagonal neighbour.
pub has_cells_near_edge_lem :
    (rows : Rows) (dx dy : ℤ)
    → (has_cells_near_edge rows dx dy ≡ false)
      ↔ ((x y : ℕ) → near_face dx x ≡ true → near_face dy y ≡ true → cell rows x y ≡ false)
unfolding has_cells_near_edge
has_cells_near_edge_lem rows dx dy =
    let n = last_row dy + 1 - first_row dy in
    let loop = any_row_iff rows (column_mask dx) n (first_row dy) in
    (
      λ h x y nx ny. loop.0 h x y (test_bit-column_mask dx x ∙ nx) (rows_near dy y ∙ ny),
      λ h.
          loop.1
            (λ x y mx my. h x y (sym (test_bit-column_mask dx x) ∙ mx) (sym (rows_near dy y) ∙ my)),
    )

-- ===== src/Simulation/Engine/Tick.antt =====
-- TickBitset computes one generation of Conway's Game of Life: what the chunk and its halos show
-- decides each cell by the rules.
use distributed_game_of_life.Prelude.{
  ℕ, ◌+◌, ◌*◌, ◌%◌, ◌^◌, ◌≡◌, inl, inr, ◌<◌, ◌≤◌, refl, ◌∙◌, ap, false, ◌&&◌,
}
use distributed_game_of_life.Prelude.{one_if, [], ◌∷◌, none, get_or, arith, Bool-cases}
use distributed_game_of_life.Prelude.{get_or-replicate, length-replicate}
use distributed_game_of_life.Prelude.Int.{pos, eq_ℤ}
use distributed_game_of_life.Simulation.Chunk.{ChunkId, Rows}
use distributed_game_of_life.Simulation.Chunk.Cells.{cell, IsValid}
use distributed_game_of_life.Simulation.ChunkMap.{id_eq, id_eq_iff, find, DistinctKeys, find_absent}
use distributed_game_of_life.Simulation.Engine.{
  Counts, no_counts, Halos, halo_offset, add_to_scratch, add_halos, tick_bitset,
}
use distributed_game_of_life.Simulation.Engine.Scratch.{
  IsScratch, at, Adds, Adds-none, Adds-ext, around,
}
use distributed_game_of_life.Simulation.Engine.Placement.{
  IsOffset, placed, around_ext_in, Adds-around, add_to_scratch-Adds,
}
use distributed_game_of_life.Simulation.Engine.Rules.{lives, next_rows_lem}
use distributed_game_of_life.Simulation.Engine.Shown.{
  IsNeighbour, IsId, AreHalos, side, inner, neighbour_at, cell_of, shown, live_neighbours,
  step_offset, halo_offset-step, step_offset-IsOffset, add64_inj, side-IsStep, placed-step,
  both_zero, not_both_zero, one_if-le,
}

pub no_counts-IsScratch : IsScratch no_counts
unfolding no_counts
no_counts-IsScratch = record {
  size = length-replicate {A = ℕ} (66 * 66) 0;
  bytes = λ i. rw (get_or-replicate {A = ℕ} (66 * 66) i 0) (omega arith);
}

no_counts-zero : (i : ℕ) → get_or no_counts i 0 ≡ 0
unfolding no_counts
no_counts-zero i = get_or-replicate {A = ℕ} (66 * 66) i 0

exact_count : (a z s e : ℕ) → a ≡ (z + s) % 2 ^ 8 → z ≡ 0 → s ≡ e → e ≤ 8 → a ≡ e
exact_count a z s e counted zeroed same few = omega arith

module _ (id : ChunkId) (hid : IsId id) where
  -- The key that the shown cell at (qx, qy) is looked up by is that of the halo, if it is at all.
  key_eq :
      (nid : ChunkId) (n : IsNeighbour id nid) (qx qy : ℕ)
      → id_eq nid (neighbour_at id qx qy) ≡ (eq_ℤ n.dx (side qx) && eq_ℤ n.dy (side qy))
  key_eq nid n qx qy =
      rw
        (
          n.at_x,
          n.at_y,
          add64_inj id.x n.dx (side qx) hid.0 n.step_x (side-IsStep qx),
          add64_inj id.y n.dy (side qy) hid.1 n.step_y (side-IsStep qy),
        )
        refl

  -- What one halo adds at padded coordinates.
  abbrev halo_part : ChunkId → Rows → ℕ → ℕ → ℕ
  halo_part nid nrows qx qy =
      one_if (id_eq nid (neighbour_at id qx qy) && cell nrows (inner qx) (inner qy))

  abbrev halos_part : Halos → ℕ → ℕ → ℕ
  halos_part [] qx qy = 0
  halos_part ((nid, nrows) ∷ halos) qx qy = halo_part nid nrows qx qy + halos_part halos qx qy

  placed-halo :
      (nid : ChunkId) (nrows : Rows) (n : IsNeighbour id nid) (qx qy : ℕ)
      → qx < 66
      → qy < 66
      → placed nrows (halo_offset nid.x id.x) (halo_offset nid.y id.y) qx qy
        ≡ halo_part nid nrows qx qy
  placed-halo nid nrows n qx qy hx hy =
      let at_x : halo_offset nid.x id.x ≡ step_offset n.dx =
        rw n.at_x (halo_offset-step id.x n.dx hid.0 n.step_x) in
      let at_y : halo_offset nid.y id.y ≡ step_offset n.dy =
        rw n.at_y (halo_offset-step id.y n.dy hid.1 n.step_y) in
      rw (at_x, at_y, key_eq nid n qx qy)
        (placed-step nrows n.dx n.dy qx qy n.step_x n.step_y hx hy ∙ ground arith)

  halo-Adds :
      (nid : ChunkId) (nrows : Rows) (counts : Counts)
      → IsNeighbour id nid
      → IsValid nrows
      → IsScratch counts
      → Adds counts
          (add_to_scratch counts nrows (halo_offset nid.x id.x) (halo_offset nid.y id.y))
          (around (halo_part nid nrows))
  halo-Adds nid nrows counts n v s =
      let off_x : IsOffset (halo_offset nid.x id.x) =
        rw (n.at_x, halo_offset-step id.x n.dx hid.0 n.step_x)
          (step_offset-IsOffset n.dx n.step_x) in
      let off_y : IsOffset (halo_offset nid.y id.y) =
        rw (n.at_y, halo_offset-step id.y n.dy hid.1 n.step_y)
          (step_offset-IsOffset n.dy n.step_y) in
      Adds-ext (around (halo_part nid nrows))
        (add_to_scratch-Adds (halo_offset nid.x id.x) off_x nrows (halo_offset nid.y id.y) off_y v
          counts s)
        (λ x y hx hy.
          around_ext_in (placed nrows (halo_offset nid.x id.x) (halo_offset nid.y id.y))
            (halo_part nid nrows) x y hx hy (placed-halo nid nrows n))

  add_halos-Adds :
      (halos : Halos) (counts : Counts)
      → AreHalos id halos
      → IsScratch counts
      → Adds counts (add_halos id halos counts) (around (halos_part halos))
  unfolding add_halos
  add_halos-Adds [] counts h s = Adds-none counts s
  add_halos-Adds ((nid, nrows) ∷ halos) counts (n, v, rest) s =
      let first = halo-Adds nid nrows counts n v s in
      Adds-around (halo_part nid nrows) (halos_part halos) (halos_part ((nid, nrows) ∷ halos)) first
        (add_halos-Adds halos _ rest first.scratch) (λ qx qy. refl)

  -- With one halo for a chunk at most, the halos add one where one of them shows a live cell.
  halos_part-find :
      (halos : Halos) (qx qy : ℕ)
      → DistinctKeys halos
      → halos_part halos qx qy
        ≡ one_if (cell_of (find (neighbour_at id qx qy) halos) (inner qx) (inner qy))
  unfolding find
  halos_part-find [] qx qy d = refl
  halos_part-find ((nid, nrows) ∷ halos) qx qy d =
      let key = neighbour_at id qx qy in
      let rest = halos_part-find halos qx qy d.1 in
      elim (Bool-cases (id_eq nid key)) [
        | inl here ↦
            let gone : find key halos ≡ none =
              find_absent key halos (rw ((id_eq_iff nid key).0 here) at d.0) in
            rw here (ground (arith, rw gone at rest))
        | inr other ↦ rw other (omega (arith, rest))
      ]

  -- No halo stands where the chunk itself stands.
  halos_part-own :
      (halos : Halos) (qx qy : ℕ)
      → AreHalos id halos
      → side qx ≡ pos 0
      → side qy ≡ pos 0
      → halos_part halos qx qy ≡ 0
  halos_part-own [] qx qy h ex ey = refl
  halos_part-own ((nid, nrows) ∷ halos) qx qy (n, v, rest) ex ey =
      let not_here : id_eq nid (neighbour_at id qx qy) ≡ false =
        key_eq nid n qx qy ∙ rw (ex, ey) n.apart in
      rw not_here (omega (arith, halos_part-own halos qx qy rest ex ey))

  shown_lem :
      (rows : Rows) (halos : Halos) (qx qy : ℕ)
      → AreHalos id halos
      → DistinctKeys halos
      → qx < 66
      → qy < 66
      → placed rows (pos 1) (pos 1) qx qy + halos_part halos qx qy
        ≡ one_if (shown id rows halos qx qy)
  shown_lem rows halos qx qy h d hx hy =
      let own = placed-step rows (pos 0) (pos 0) qx qy (inr (inl refl)) (inr (inl refl)) hx hy in
      elim (Bool-cases (eq_ℤ (side qx) (pos 0) && eq_ℤ (side qy) (pos 0))) [
        | inl centre ↦
            let sides = both_zero (side qx) (side qy) centre in
            let none_else = halos_part-own halos qx qy h sides.0 sides.1 in
            rw (own, centre, none_else, sides.0, sides.1) (omega arith)
        | inr beside ↦
            rw
              (
                own,
                beside,
                not_both_zero (side qx) (side qy) (cell rows (inner qx) (inner qy)) beside,
              )
              (omega (arith, halos_part-find halos qx qy d))
      ]

-- A cell has eight neighbours.
live_neighbours-le :
    (id : ChunkId) (rows : Rows) (halos : Halos) (x y : ℕ) → live_neighbours id rows halos x y ≤ 8
live_neighbours-le id rows halos x y =
    let small = λ (qx qy : ℕ). one_if-le (shown id rows halos qx qy) in
    omega (
      arith,
      small x y,
      small (x + 1) y,
      small (x + 2) y,
      small x (y + 1),
      small (x + 2) (y + 1),
      small x (y + 2),
      small (x + 1) (y + 2),
      small (x + 2) (y + 2),
    )

-- From a zeroed scratch buffer, valid rows, and halos of distinct chunks around the chunk, in any
-- order, TickBitset computes the next generation: each cell is what Conway's rules make of its state
-- and of the number of its eight neighbours that the chunk and its halos show alive. No count
-- overflows: the count that the scratch buffer has for each cell, after the chunk and all the halos are
-- added, is that number, also where all eight are alive. The new rows are valid and the scratch buffer is
-- zero again.
pub tick_bitset_lem :
    (id : ChunkId) (rows : Rows) (halos : Halos)
    → IsId id
    → IsValid rows
    → AreHalos id halos
    → DistinctKeys halos
    → IsValid (tick_bitset id rows halos no_counts).0
      × ((x y : ℕ)
          → x < 64
          → y < 64
          → cell (tick_bitset id rows halos no_counts).0 x y
            ≡ lives (cell rows x y) (live_neighbours id rows halos x y))
      × ((tick_bitset id rows halos no_counts).1 ≡ no_counts)
      × ((x y : ℕ)
          → x < 64
          → y < 64
          → at (add_halos id halos (add_to_scratch no_counts rows (pos 1) (pos 1))) (x + 1) (y + 1)
            ≡ live_neighbours id rows halos x y)
unfolding tick_bitset
tick_bitset_lem id rows halos hid v h d =
    let own =
      add_to_scratch-Adds (pos 1) (omega arith) rows (pos 1) (omega arith) v no_counts
        no_counts-IsScratch in
    let all =
      Adds-around (placed rows (pos 1) (pos 1)) (halos_part id hid halos) _ own
        (add_halos-Adds id hid halos _ h own.scratch) (λ qx qy. refl) in
    let next =
      next_rows_lem (add_halos id halos (add_to_scratch no_counts rows (pos 1) (pos 1))) rows in
    let counts = λ (x y : ℕ) (hx : x < 64) (hy : y < 64).
      let seen =
        around_ext_in _ (λ qx qy. one_if (shown id rows halos qx qy)) x y hx hy
          (λ qx qy lx ly. shown_lem id hid rows halos qx qy h d lx ly) in
      exact_count _ _ _ _ (all.counted x y hx hy) (no_counts-zero _) seen
        (live_neighbours-le id rows halos x y) in
    (
      next.0,
      λ x y hx hy. next.1 x y hx hy ∙ ap (lives (cell rows x y)) (counts x y hx hy),
      refl,
      counts,
    )

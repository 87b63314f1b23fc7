-- ===== src/Simulation/TickAll/Seen.antt =====
-- What a chunk's halos show is what the world has around the chunk: the halos that hasCellsNearEdge rules
-- out would show dead cells only.
use distributed_game_of_life.Prelude.{
  ℕ, ◌≡◌, ◌<◌, inl, inr, refl, sym, ◌∙◌, arith, Bool, true, false, ◌&&◌, ◌||◌, List, [], ◌∷◌,
  Option, none, some, Bool-cases,
}
use distributed_game_of_life.Prelude.Int.{ℤ, pos, eq_ℤ, eq_ℤ_iff, add64, IsInt64}
use distributed_game_of_life.Simulation.Chunk.{ChunkId, Rows}
use distributed_game_of_life.Simulation.Chunk.Cells.{cell, cell-no_rows}
use distributed_game_of_life.Simulation.ChunkMap.{id_eq, id_eq_iff, find}
use distributed_game_of_life.Simulation.Engine.{has_cells_near_edge}
use distributed_game_of_life.Simulation.Engine.Edge.{near_face, has_cells_near_edge_lem}
use distributed_game_of_life.Simulation.Engine.Shown.{
  IsStep, IsId, side, side-IsStep, inner, neighbour_at, cell_of, shown,
}
use distributed_game_of_life.Simulation.Registry.{ChunkState, Chunks, Config}
use distributed_game_of_life.Simulation.Registry.Invariant.{IsRegistry, rows_of, rows_in}
use distributed_game_of_life.Simulation.TickAll.{
  snapshot_rows, neighbour_offsets, halos_of, shifted, distributed,
}
use distributed_game_of_life.Simulation.TickAll.Given.{
  rows_option, gives, given_by, find-snapshot_rows, snapshot_rows-DistinctKeys, find-distribute,
}
use distributed_game_of_life.Simulation.TickAll.Spread.{
  opposite, add64-opposite, opposite-IsStep, opposite-apart,
}

-- The cell of the world at padded coordinates around a chunk.
abbrev pub world_cell : ChunkId → Chunks → ℕ → ℕ → Bool
world_cell id m qx qy = cell (rows_in (neighbour_at id qx qy) m) (inner qx) (inner qy)

abbrev has_offset : ℤ → ℤ → List (ℤ × ℤ) → Bool
has_offset dx dy [] = false
has_offset dx dy ((ex, ey) ∷ offs) = eq_ℤ ex dx && eq_ℤ ey dy || has_offset dx dy offs

neighbour_offsets-has :
    (dx dy : ℤ)
    → IsStep dx
    → IsStep dy
    → (eq_ℤ dx (pos 0) && eq_ℤ dy (pos 0)) ≡ false
    → has_offset dx dy neighbour_offsets ≡ true
unfolding neighbour_offsets
neighbour_offsets-has dx dy sx sy apart = ground arith

both_eq : (ex ey dx dy : ℤ) → (eq_ℤ ex dx && eq_ℤ ey dy) ≡ true → (ex ≡ dx) × (ey ≡ dy)
both_eq ex ey dx dy same = ((eq_ℤ_iff ex dx).0 (ground arith), (eq_ℤ_iff ey dy).0 (ground arith))

first_false : (a b c : Bool) → (a && b || c) ≡ false → b ≡ true → a ≡ false
first_false a b c h hb = ground arith

-- A chunk that gives no halo to a neighbour has no cells near that edge.
gives-far :
    (offs : List (ℤ × ℤ)) (dx dy : ℤ) (e n : ChunkId) (rows : Rows)
    → gives offs e rows n ≡ false
    → has_offset dx dy offs ≡ true
    → shifted e dx dy ≡ n
    → has_cells_near_edge rows dx dy ≡ false
unfolding gives
gives-far [] dx dy e n rows quiet there way = cc
gives-far ((ex, ey) ∷ offs) dx dy e n rows quiet there way =
    elim (Bool-cases (eq_ℤ ex dx && eq_ℤ ey dy)) [
      | inl same ↦
          let ways = both_eq ex ey dx dy same in
          let led : id_eq (shifted e dx dy) n ≡ true = (id_eq_iff (shifted e dx dy) n).1 way in
          first_false (has_cells_near_edge rows dx dy) (id_eq (shifted e dx dy) n)
            (gives offs e rows n) (rw (ways.0, ways.1) at quiet) led
      | inr other ↦ gives-far offs dx dy e n rows (ground arith) (ground arith) way
    ]

near_face-opposite : (q : ℕ) → q < 66 → near_face (opposite (side q)) (inner q) ≡ true
near_face-opposite q h = ground arith

module _ (config : Config) where
  open config use {Outside}

  find-halos :
      (o : Outside) (m : Chunks) (n e : ChunkId)
      → IsRegistry m
      → find e (halos_of n (distributed config o m).1) ≡ given_by n e (rows_option (find e m)) none
  unfolding distributed halos_of find
  find-halos o m n e r =
      find-distribute config o n e (snapshot_rows m) (m, [])
        (snapshot_rows-DistinctKeys m r.distinct)
      ∙ rw (find-snapshot_rows e m) refl

back_to :
    (id : ChunkId) (qx qy : ℕ)
    → IsId id
    → shifted (neighbour_at id qx qy) (opposite (side qx)) (opposite (side qy)) ≡ id
back_to id qx qy hid =
    rw
      (
        sym (add64-opposite id.x (side qx) hid.0 (side-IsStep qx)),
        sym (add64-opposite id.y (side qy) hid.1 (side-IsStep qy)),
      )
      refl

-- The cell that a quiet neighbour would show is dead.
quiet_cell :
    (id : ChunkId) (rows : Rows) (qx qy : ℕ)
    → IsId id
    → qx < 66
    → qy < 66
    → (eq_ℤ (side qx) (pos 0) && eq_ℤ (side qy) (pos 0)) ≡ false
    → gives neighbour_offsets (neighbour_at id qx qy) rows id ≡ false
    → cell rows (inner qx) (inner qy) ≡ false
quiet_cell id rows qx qy hid hx hy beside quiet =
    let sx = side-IsStep qx in
    let sy = side-IsStep qy in
    let listed =
      neighbour_offsets-has (opposite (side qx)) (opposite (side qy)) (opposite-IsStep (side qx) sx)
        (opposite-IsStep (side qy) sy) (opposite-apart (side qx) (side qy) sx sy beside) in
    let far =
      gives-far neighbour_offsets (opposite (side qx)) (opposite (side qy)) (neighbour_at id qx qy)
        id rows quiet listed (back_to id qx qy hid) in
    (has_cells_near_edge_lem rows (opposite (side qx)) (opposite (side qy))).0 far (inner qx)
      (inner qy) (near_face-opposite qx hx) (near_face-opposite qy hy)

beside_lem :
    (id : ChunkId) (found : Option ChunkState) (halo : Option Rows) (qx qy : ℕ)
    → IsId id
    → qx < 66
    → qy < 66
    → (eq_ℤ (side qx) (pos 0) && eq_ℤ (side qy) (pos 0)) ≡ false
    → halo ≡ given_by id (neighbour_at id qx qy) (rows_option found) none
    → cell_of halo (inner qx) (inner qy) ≡ cell (rows_of found) (inner qx) (inner qy)
beside_lem id none halo qx qy hid hx hy beside e = rw e (sym (cell-no_rows (inner qx) (inner qy)))
beside_lem id (some state) halo qx qy hid hx hy beside e =
    elim (Bool-cases (gives neighbour_offsets (neighbour_at id qx qy) state.chunk.rows id)) [
      | inl given ↦ rw (e, given) refl
      | inr quiet ↦
          rw (e, quiet) (sym (quiet_cell id state.chunk.rows qx qy hid hx hy beside quiet))
    ]

add64-zero : (a : ℤ) → IsInt64 a → add64 a (pos 0) ≡ a
unfolding add64
add64-zero a h = ground arith

neighbour_at-centre :
    (id : ChunkId) (qx qy : ℕ)
    → IsId id
    → (eq_ℤ (side qx) (pos 0) && eq_ℤ (side qy) (pos 0)) ≡ true
    → neighbour_at id qx qy ≡ id
neighbour_at-centre id qx qy hid centre =
    let ways = both_eq (side qx) (side qy) (pos 0) (pos 0) centre in
    rw (ways.0, ways.1, add64-zero id.x hid.0, add64-zero id.y hid.1) refl

module _ (config : Config) where
  open config use {Outside}

  -- What a chunk and its halos show when the jobs are handed out is the world before the tick.
  pub shown-world_cell :
      (o : Outside) (m : Chunks) (id : ChunkId) (qx qy : ℕ)
      → IsRegistry m
      → IsId id
      → qx < 66
      → qy < 66
      → shown id (rows_in id m) (halos_of id (distributed config o m).1) qx qy
        ≡ world_cell id m qx qy
  unfolding rows_in
  shown-world_cell o m id qx qy r hid hx hy =
      elim (Bool-cases (eq_ℤ (side qx) (pos 0) && eq_ℤ (side qy) (pos 0))) [
        | inl centre ↦ rw (centre, neighbour_at-centre id qx qy hid centre) refl
        | inr beside ↦
            let e = neighbour_at id qx qy in
            rw beside (
              beside_lem id (find e m) (find e (halos_of id (distributed config o m).1)) qx qy hid
                hx hy beside (find-halos config o m id e r))
      ]

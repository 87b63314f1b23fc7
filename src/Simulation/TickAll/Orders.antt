-- ===== src/Simulation/TickAll/Orders.antt =====
-- The jobs of a tick, and the orders in which the workers can take them.
use distributed_game_of_life.Prelude.{
  ℕ, ◌≡◌, ◌<◌, inl, inr, refl, ap, ◌∙◌, ◌||◌, one_if, List, [], ◌∷◌, Option, none, some, Bool-cases,
  Option-cases,
}
use distributed_game_of_life.Simulation.Chunk.{ChunkId}
use distributed_game_of_life.Simulation.ChunkMap.{id_eq, id_eq_iff, find, has_key, DistinctKeys}
use distributed_game_of_life.Simulation.Engine.{Halos}
use distributed_game_of_life.Simulation.Engine.Scratch.{around}
use distributed_game_of_life.Simulation.Engine.Placement.{around_ext_in}
use distributed_game_of_life.Simulation.Registry.{ChunkState, Chunks}
use distributed_game_of_life.Simulation.Registry.Invariant.{rows_in}
use distributed_game_of_life.Simulation.TickAll.{
  HalosByChunk, Work, snapshot_rows, halos_of, or_rows, jobs,
}
use distributed_game_of_life.Simulation.TickAll.Given.{find-snapshot_rows}
use distributed_game_of_life.Simulation.TickAll.Spread.{IsGrown}
use distributed_game_of_life.Simulation.TickAll.Seen.{world_cell}
use distributed_game_of_life.Simulation.TickAll.Run.{}

-- The same jobs in another order, each of them once.
pub record IsOrder (js others : List (ChunkId × Work)) : Type 0 where
  pub distinct : DistinctKeys js
  pub same : (k : ChunkId) → find k js ≡ find k others

-- The workers take all the jobs that there are, in some order.
abbrev pub IsSchedule : (List (ChunkId × Work) → List (ChunkId × Work)) → Type 0
IsSchedule schedule = (js : List (ChunkId × Work)) → DistinctKeys js → IsOrder (schedule js) js

-- The number of live neighbours that a cell has in the world.
abbrev pub world_neighbours : ChunkId → Chunks → ℕ → ℕ → ℕ
world_neighbours id m = around (λ qx qy. one_if (world_cell id m qx qy))

-- The job of an active chunk.
abbrev job_of : Halos → HalosByChunk → ChunkId → Option ChunkState → Option Work
job_of rows_by_id given id none = none
job_of rows_by_id given id (some state) =
    some
      (record { rows = or_rows state.chunk.rows (find id rows_by_id); halos = halos_of id given })

module _ (rows_by_id : Halos) (given : HalosByChunk) where
  pub find-jobs :
      (k : ChunkId) (m : Chunks)
      → find k (jobs rows_by_id given m) ≡ job_of rows_by_id given k (find k m)
  unfolding find jobs
  find-jobs k [] = refl
  find-jobs k ((id, state) ∷ m) = elim (Bool-cases (id_eq id k)) [
    | inl same ↦ rw (same, (id_eq_iff id k).0 same) refl
    | inr other ↦ rw other (find-jobs k m)
  ]

  has_key-jobs : (k : ChunkId) (m : Chunks) → has_key k (jobs rows_by_id given m) ≡ has_key k m
  unfolding has_key jobs
  has_key-jobs k [] = refl
  has_key-jobs k ((id, state) ∷ m) = ap (◌||◌ (id_eq id k)) (has_key-jobs k m)

  pub jobs-DistinctKeys : (m : Chunks) → DistinctKeys m → DistinctKeys (jobs rows_by_id given m)
  unfolding jobs
  jobs-DistinctKeys [] d = tt
  jobs-DistinctKeys ((id, state) ∷ m) d = (has_key-jobs id m ∙ d.0, jobs-DistinctKeys m d.1)

-- The rows of a job are those of the snapshot, or those of a chunk that has just been woken.
pub job_rows :
    (m m' : Chunks) (id : ChunkId) (state : ChunkState)
    → IsGrown m m'
    → find id m' ≡ some state
    → or_rows state.chunk.rows (find id (snapshot_rows m)) ≡ rows_in id m
unfolding rows_in
job_rows m m' id state g there = rw (find-snapshot_rows id m) (elim (Option-cases (find id m)) [
  | inl new ↦ rw new (rw (there, new) at (g.same id))
  | inr (old, before) ↦ rw before refl
])

pub around_none :
    (g : ℕ → ℕ → ℕ) (x y : ℕ)
    → x < 64
    → y < 64
    → ((qx qy : ℕ) → qx < 66 → qy < 66 → g qx qy ≡ 0)
    → around g x y ≡ 0
around_none g x y hx hy zero_all = around_ext_in g (λ _ _. 0) x y hx hy zero_all

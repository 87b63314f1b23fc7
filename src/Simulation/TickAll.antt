-- ===== src/Simulation/TickAll.antt =====
-- Registry.TickAll of simulation/registry.go: the snapshot of all rows, the halos that are given to the
-- neighbours, and one job for each active chunk, carried out by the workers of the pool in any order.
pub mod Given
pub mod Spread
pub mod Growth
pub mod Seen
pub mod Run
pub mod Orders
pub mod Generation
pub mod Ticks
pub mod Hibernation
pub mod LateSpawn
use distributed_game_of_life.Prelude.{
  ℕ, ◌+◌, ◌==◌, Bool, true, false, if◌then◌else◌, List, [], ◌∷◌, Option, none, some,
}
use distributed_game_of_life.Prelude.Int.{ℤ, pos, negsuc, add64}
use distributed_game_of_life.Simulation.Chunk.{ChunkId, Rows}
use distributed_game_of_life.Simulation.ChunkMap.{find, put}
use distributed_game_of_life.Simulation.Engine.{Counts, Halos, has_cells_near_edge}
use distributed_game_of_life.Simulation.Registry.{
  ChunkState, Chunks, Config, get_or_create, process_job,
}

-- The loop over r.chunks that snapshots the rows: `entries`, which is `rowsByID` too.
unfoldable pub snapshot_rows : Chunks → Halos
snapshot_rows [] = []
snapshot_rows ((id, state) ∷ m) = (id, state.chunk.rows) ∷ snapshot_rows m

-- neighbourOffsets
unfoldable pub neighbour_offsets : List (ℤ × ℤ)
neighbour_offsets =
    (negsuc 0, negsuc 0)
    ∷ (pos 0, negsuc 0)
    ∷ (pos 1, negsuc 0)
    ∷ (negsuc 0, pos 0)
    ∷ (pos 1, pos 0)
    ∷ (negsuc 0, pos 1)
    ∷ (pos 0, pos 1)
    ∷ (pos 1, pos 1)
    ∷ []

-- The loop that computes `allZero`.
unfoldable pub all_zero : Rows → Bool
all_zero [] = true
all_zero (row ∷ rows) = let rest = all_zero rows in if row == 0 then rest else false

-- map[ChunkID]map[ChunkID][ChunkSize]uint64
abbrev pub HalosByChunk : Type 0
HalosByChunk = List (ChunkId × Halos)

abbrev or_empty : Option Halos → Halos
or_empty none = []
or_empty (some halos) = halos

-- halosByChunk[id], a missing map reading as the empty one.
unfoldable pub halos_of : ChunkId → HalosByChunk → Halos
halos_of id given = or_empty (find id given)

-- halosByChunk[nid][eid] = rows
unfoldable pub give_halo : ChunkId → ChunkId → Rows → HalosByChunk → HalosByChunk
unfolding halos_of
give_halo nid eid rows given = put nid (put eid rows (halos_of nid given)) given

-- ChunkID{X: e.id.X + off[0], Y: e.id.Y + off[1]}
abbrev pub shifted : ChunkId → ℤ → ℤ → ChunkId
shifted id dx dy = record { x = add64 id.x dx; y = add64 id.y dy }

abbrev pub or_rows : Rows → Option Rows → Rows
or_rows own none = own
or_rows own (some rows) = rows

-- The work of one job; the chunk's own state is found under its key.
pub record Work : Type 0 where
  pub rows : Rows
  pub halos : Halos

-- The second loop over r.chunks and the fan-out: a job for each active chunk, with the rows of the
-- snapshot, or its rows now if it was not in the snapshot.
unfoldable pub jobs : Halos → HalosByChunk → Chunks → List (ChunkId × Work)
unfolding halos_of
jobs rows_by_id given [] = []
jobs rows_by_id given ((id, state) ∷ m) =
    (id, record { rows = or_rows state.chunk.rows (find id rows_by_id); halos = halos_of id given })
    ∷ jobs rows_by_id given m

-- The workers' scratch buffers.
abbrev pub set_scratch : ℕ → Counts → (ℕ → Counts) → ℕ → Counts
set_scratch worker counts scratches j = if worker == j then counts else scratches j

module _ (config : Config) where
  open config use {Outside}

  -- The body of the loop over the offsets.
  unfoldable pub visit :
      Outside → ChunkId → Rows → ℤ × ℤ → Chunks × HalosByChunk → Chunks × HalosByChunk
  unfolding has_cells_near_edge get_or_create give_halo
  visit o eid rows (dx, dy) (m, given) =
      if has_cells_near_edge rows dx dy
      then (
        get_or_create config o (shifted eid dx dy) m,
        give_halo (shifted eid dx dy) eid rows given,
      )
      else (m, given)

  unfoldable pub visit_all :
      Outside → ChunkId → Rows → List (ℤ × ℤ) → Chunks × HalosByChunk → Chunks × HalosByChunk
  unfolding visit
  visit_all o eid rows [] s = s
  visit_all o eid rows (off ∷ offs) s = visit_all o eid rows offs (visit o eid rows off s)

  -- The loop over the entries.
  unfoldable pub distribute : Outside → Halos → Chunks × HalosByChunk → Chunks × HalosByChunk
  unfolding all_zero visit_all neighbour_offsets
  distribute o [] s = s
  distribute o ((eid, rows) ∷ entries) s =
      distribute o entries (if all_zero rows then s else visit_all o eid rows neighbour_offsets s)

  -- What the pool works on: what is behind the registry with the chunks, and the workers' buffers.
  abbrev pub Pool : Type 0
  Pool = (Outside × Chunks) × (ℕ → Counts)

  abbrev run_found : ℕ → ChunkId → Work → Option ChunkState → Pool → Pool
  run_found worker key work none p = p
  run_found worker key work (some state) (s, scratches) =
      let (s', counts) = process_job config key state work.rows work.halos (scratches worker) s in
      (s', set_scratch worker counts scratches)

  -- runWorker's call of processJob. The chunk of a job stays active until its own job lets it hibernate.
  unfoldable pub run_job : ℕ → ChunkId → Work → Pool → Pool
  unfolding process_job
  run_job worker key work p = run_found worker key work (find key p.0.1) p

  -- The jobs in the order in which the workers take them, with the worker that `worker_of` gives each to.
  unfoldable pub run_jobs : (ChunkId → ℕ) → List (ChunkId × Work) → Pool → Pool
  unfolding run_job
  run_jobs worker_of [] p = p
  run_jobs worker_of ((key, work) ∷ rest) p =
      run_jobs worker_of rest (run_job (worker_of key) key work p)

  -- The state after the halos are distributed.
  unfoldable pub distributed : Outside → Chunks → Chunks × HalosByChunk
  unfolding snapshot_rows distribute
  distributed o m = distribute o (snapshot_rows m) (m, [])

  unfoldable pub tick_jobs : Outside → Chunks → List (ChunkId × Work)
  unfolding distributed jobs
  tick_jobs o m = let (active, given) = distributed o m in jobs (snapshot_rows m) given active

  -- TickAll, where the workers take the jobs in the order that `schedule` makes of them.
  unfoldable pub tick_all :
      (List (ChunkId × Work) → List (ChunkId × Work)) → (ChunkId → ℕ) → Pool → Pool
  unfolding run_jobs distributed tick_jobs
  tick_all schedule worker_of ((o, m), scratches) =
      run_jobs worker_of (schedule (tick_jobs o m)) ((o, (distributed o m).0), scratches)

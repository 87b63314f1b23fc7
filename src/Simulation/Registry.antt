-- ===== src/Simulation/Registry.antt =====
-- simulation/registry.go: the map of active chunks, with GetOrCreate, ProcessSpawn, PeekChunk, processJob,
-- hibernate and evict. What the callbacks of RegistryConfig do is a parameter; a callback that is nil is
-- one that does nothing. The metrics and log lines are left out.
pub mod Invariant
pub mod Spawns
pub mod Jobs
pub mod Lifetime
pub mod Stored
use distributed_game_of_life.Prelude.{
  ℕ, ◌+◌, ◌≡◌, Bool, true, false, not, ◌&&◌, leb, ◌==◌, if◌then◌else◌, List, [], ◌∷◌, Option, none,
  some,
}
use distributed_game_of_life.Simulation.Chunk.{
  ChunkId, Rows, Chunk, new_chunk, add_cell, set_rows, snapshot, pop_count,
}
use distributed_game_of_life.Simulation.Chunk.Cells.{IsValid}
use distributed_game_of_life.Simulation.ChunkMap.{find, put, delete}
use distributed_game_of_life.Simulation.Engine.{Counts, Halos, tick_bitset}

abbrev pub hibernation_threshold : ℕ
hibernation_threshold = 100

-- chunkState
pub record ChunkState : Type 0 where
  pub chunk : Chunk
  pub idle_ticks : ℕ

-- What Load returns: a chunk, nil, or an error.
pub data Loaded : Type 0 where
  loaded : Chunk → Loaded
  nothing load_error : Loaded

-- The callbacks, over the state of what is behind them. Load answers with valid rows of the chunk asked
-- for. Persist may fail, which the registry only logs.
pub record Config : Type 1 where
  pub Outside : Type 0
  pub load : Outside → ChunkId → Loaded
  pub persist : Outside → Chunk → Outside
  pub has_subscribers : Outside → ChunkId → Bool
  pub on_tick : Outside → ChunkId → List ℕ → Outside
  pub load-id : (o : Outside) (id : ChunkId) (c : Chunk) → load o id ≡ loaded c → c.id ≡ id
  pub load-IsValid :
      (o : Outside) (id : ChunkId) (c : Chunk) → load o id ≡ loaded c → IsValid c.rows

-- Registry.chunks
abbrev pub Chunks : Type 0
Chunks = List (ChunkId × ChunkState)

-- The chunk that GetOrCreate starts with, for what Load has returned.
unfoldable pub hydrated : ChunkId → Loaded → Chunk
unfolding new_chunk
hydrated id (loaded c) = c
hydrated id nothing = new_chunk id.x id.y
hydrated id load_error = new_chunk id.x id.y

abbrev fresh_state : Chunk → ChunkState
fresh_state c = record { chunk = c; idle_ticks = 0 }

unfoldable pub add_if_absent : ChunkId → Chunk → Option ChunkState → Chunks → Chunks
add_if_absent id c none m = put id (fresh_state c) m
add_if_absent id c (some state) m = m

abbrev pub snapshot_of : Loaded → List ℕ
snapshot_of (loaded c) = snapshot c
snapshot_of nothing = []
snapshot_of load_error = []

-- handle.ProcessSpawn on the handle that GetOrCreate has just returned for `id`.
unfoldable pub spawn_in : ChunkId → ℕ → ℕ → Option ChunkState → Chunks → Chunks
unfolding add_cell
spawn_in id x y none m = m
spawn_in id x y (some state) m = put id (record state { chunk = add_cell state.chunk x y }) m

module _ (config : Config) where
  open config use {Outside, load, persist, has_subscribers, on_tick}

  -- GetOrCreate
  unfoldable pub get_or_create : Outside → ChunkId → Chunks → Chunks
  unfolding hydrated add_if_absent
  get_or_create o id m = add_if_absent id (hydrated id (load o id)) (find id m) m

  -- PeekChunk
  unfoldable pub peek : Outside → ChunkId → Option ChunkState → List ℕ
  peek o id none = snapshot_of (load o id)
  peek o id (some state) = snapshot state.chunk

  unfoldable pub peek_chunk : Outside → ChunkId → Chunks → List ℕ
  unfolding peek
  peek_chunk o id m = peek o id (find id m)

  -- r.registry.GetOrCreate(id).ProcessSpawn(ctx, x, y)
  unfoldable pub spawn_cell : Outside → ChunkId → ℕ → ℕ → Chunks → Chunks
  unfolding get_or_create spawn_in
  spawn_cell o id x y m =
      let active = get_or_create o id m in spawn_in id x y (find id active) active

  -- hibernate and evict
  unfoldable pub hibernate : Chunk → Outside × Chunks → Outside × Chunks
  hibernate c (o, m) = (persist o c, delete c.id m)

  -- The end of processJob, for the job's state with the rows of the next generation.
  unfoldable pub settle : ChunkId → ChunkState → Outside × Chunks → Outside × Chunks
  unfolding hibernate
  settle key state (o, m) =
      let c = state.chunk in
      let idle = state.idle_ticks + 1 in
      let waiting = put key (record { chunk = c; idle_ticks = idle }) m in
      if pop_count c == 0 && not (has_subscribers o c.id)
      then (if leb hibernation_threshold idle then hibernate c (o, waiting) else (o, waiting))
      else (o, put key (record { chunk = c; idle_ticks = 0 }) m)

  -- processJob: the job of the chunk under `key`, on the scratch buffer of its worker.
  unfoldable pub process_job :
      ChunkId → ChunkState → Rows → Halos → Counts → Outside × Chunks → (Outside × Chunks) × Counts
  unfolding tick_bitset set_rows settle
  process_job key state rows halos scratch (o, m) =
      let c = state.chunk in
      let (next, scratch') = tick_bitset c.id rows halos scratch in
      let ticked = set_rows c next in
      (settle key (record state { chunk = ticked }) (on_tick o c.id (snapshot ticked), m), scratch')

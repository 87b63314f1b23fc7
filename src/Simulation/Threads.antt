-- ===== src/Simulation/Threads.antt =====
-- GetOrCreate and ProcessSpawn of simulation/registry.go, called by many goroutines at once: each of their
-- accesses of shared memory is a step, and the steps of the goroutines come in any order. Chunks are
-- shared through pointers: r.chunks has the address of each chunk, and so has the handle of a goroutine
-- that GetOrCreate has returned to.
pub mod Coherence
pub mod Handles
pub mod Steps
pub mod Moves
pub mod Seen
pub mod Spawned
pub mod Evicted
use distributed_game_of_life.Prelude.{
  ℕ, ◌+◌, ◌-◌, ◌==◌, if◌then◌else◌, List, [], ◌∷◌, Option, none, some,
}
use distributed_game_of_life.Prelude.Update.{write}
use distributed_game_of_life.Simulation.Chunk.{ChunkId, Chunk, Rows, add_cell}
use distributed_game_of_life.Simulation.ChunkMap.{find, put, delete}
use distributed_game_of_life.Simulation.Registry.{Config, hydrated}

-- How far a goroutine is: it begins, it has found no chunk, it has made one at an address, it has the
-- handle of a chunk, or it has spawned its cell.
pub data Phase : Type 0 where
  begun missed done : Phase
  made holding : ℕ → Phase

-- A goroutine that calls GetOrCreate(id).ProcessSpawn(ctx, x, y).
pub record Thread : Type 0 where
  pub id : ChunkId
  pub x : ℕ
  pub y : ℕ
  pub phase : Phase

-- The memory: the chunks at their addresses, of which those below `next` are taken; r.chunks, the gauge
-- ActiveChunkActors, and the goroutines.
pub record Memory : Type 0 where
  pub heap : ℕ → Chunk
  pub next : ℕ
  pub entries : List (ChunkId × ℕ)
  pub active_chunk_actors : ℕ
  pub threads : ℕ → Thread

-- The goroutine `t` goes on to a phase.
abbrev pub go_on : ℕ → Phase → Memory → Memory
go_on t p s = record s { threads = write t (record (s.threads t) { phase = p }) s.threads }

-- The first critical section, under the read lock.
abbrev pub looked_up : Option ℕ → Phase
looked_up none = missed
looked_up (some a) = holding a

-- The second one, under the write lock: the chunk that was made is dropped if there is one by now.
unfoldable pub insert_made : ℕ → ChunkId → ℕ → Option ℕ → Memory → Memory
insert_made t id a (some b) s = go_on t (holding b) s
insert_made t id a none s =
    go_on t (holding a)
      (record s { entries = put id a s.entries; active_chunk_actors = s.active_chunk_actors + 1 })

-- evict, the end of hibernate: a critical section of the tick. The chunk is in the map, so that the gauge
-- is not at 0.
unfoldable pub evict : ChunkId → Memory → Memory
evict id s = record s {
  entries = delete id s.entries;
  active_chunk_actors = s.active_chunk_actors - 1;
}

module _ (config : Config) (o : config.Outside) where
  -- NewChunk and Load, without a lock.
  abbrev pub loaded_chunk : ChunkId → Chunk
  loaded_chunk id = hydrated id (config.load o id)

  unfoldable pub advance : ℕ → Thread → Phase → Memory → Memory
  unfolding hydrated insert_made add_cell
  advance t th begun s = go_on t (looked_up (find th.id s.entries)) s
  advance t th missed s =
      go_on t (made s.next)
        (record s { heap = write s.next (loaded_chunk th.id) s.heap; next = s.next + 1 })
  advance t th (made a) s = insert_made t th.id a (find th.id s.entries) s
  advance t th (holding a) s =
      go_on t done (record s { heap = write a (add_cell (s.heap a) th.x th.y) s.heap })
  advance t th done s = s

  -- The goroutine `t` takes its next step.
  unfoldable pub turn : ℕ → Memory → Memory
  unfolding advance
  turn t s = advance t (s.threads t) (s.threads t).phase s

  unfoldable pub run : List ℕ → Memory → Memory
  unfolding turn
  run [] s = s
  run (t ∷ ts) s = run ts (turn t s)

  -- The rows of a chunk, those that Load finds if it is not active.
  abbrev rows_or : ChunkId → (ℕ → Chunk) → Option ℕ → Rows
  rows_or id heap none = (loaded_chunk id).rows
  rows_or id heap (some a) = (heap a).rows

  unfoldable pub rows_seen : ChunkId → Memory → Rows
  unfolding find hydrated
  rows_seen id s = rows_or id s.heap (find id s.entries)

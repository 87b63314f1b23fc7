-- ===== src/Tests/Stored.antt =====
-- A test of the model of processJob with Redis behind it: a chunk whose only cell dies in its 100th idle
-- tick, and of which an older version is stored.
use distributed_game_of_life.Prelude.{
  ◌+◌, ◌≡◌, ◌↔◌, ◌≤◌, refl, arith, false, if◌then◌else◌, [], ◌∷◌, Option, none, some, Bool-cases,
  inl, inr,
}
use distributed_game_of_life.Simulation.Chunk.{
  ChunkId, Rows, Chunk, no_rows, offsets_to_rows, set_rows, snapshot, marshal_alias,
}
use distributed_game_of_life.Simulation.Chunk.Cells.{IsValid}
use distributed_game_of_life.Simulation.Chunk.Offsets.{offsets_to_rows_lem}
use distributed_game_of_life.Simulation.ChunkMap.{id_eq, find, put}
use distributed_game_of_life.Simulation.Engine.{no_counts, tick_bitset}
use distributed_game_of_life.Simulation.Engine.Tick.{tick_bitset_lem}
use distributed_game_of_life.Simulation.Registry.{ChunkState, Chunks, Config, loaded, process_job}
use distributed_game_of_life.Simulation.Registry.Invariant.{IsState, IsRegistry, put-IsRegistry}
use distributed_game_of_life.Simulation.Registry.Stored.{rows_seen, process_job_lem}
use distributed_game_of_life.Storage.{
  Backend, save_chunk, load_chunk, load_chunk-save_chunk, save_chunk-IsFaithful,
}
use distributed_game_of_life.Server.{loaded_by, Behind, keep_saved, show_clients, registry_config}
use distributed_game_of_life.Tests.Registry.{near_origin, three, active, active-IsRegistry}
use distributed_game_of_life.Tests.Storage.{Values, values, written, loaded_fields, nothing_stored}
use distributed_game_of_life.Tests.Server.{nothing_stored-IsFaithful, every_write_works}

module _ (backend : Backend) where
  load-keep_saved-some :
      (o : Behind backend) (c : Chunk) (k : ChunkId) (t : backend.Store) (r : Option backend.Store)
      (e : save_chunk backend o.store c ≡ r)
      → r ≡ some t
      → IsValid c.rows
      → loaded_by (load_chunk backend (keep_saved backend o c r e).store k)
        ≡ (if id_eq c.id k then loaded c else loaded_by (load_chunk backend o.store k))
  unfolding keep_saved
  load-keep_saved-some o c k t none e works v = absurd (cc works)
  load-keep_saved-some o c k t (some u) e works v =
      let kept = load_chunk-save_chunk backend o.store u c k v e in
      elim (Bool-cases (id_eq c.id k)) [
        | inl own ↦ rw (kept, own) refl
        | inr other ↦ rw (kept, other) refl
      ]

abbrev older : Values
older = written nothing_stored near_origin (loaded_fields (marshal_alias three.chunk))

older-saved : save_chunk values nothing_stored three.chunk ≡ some older
unfolding save_chunk
older-saved = refl

abbrev redis : Config
redis = registry_config values every_write_works []

abbrev behind : Behind values
behind = record {
  store = older;
  faithful =
      save_chunk-IsFaithful values nothing_stored older three.chunk older-saved
        nothing_stored-IsFaithful;
  writes = [];
  dropped = 0;
}

abbrev one_cell : Rows
one_cell = offsets_to_rows (129 ∷ [])

one_cell-IsValid : IsValid one_cell
one_cell-IsValid = (offsets_to_rows_lem (129 ∷ [])).0

abbrev dying : ChunkState
dying = record { chunk = record { id = near_origin; rows = one_cell }; idle_ticks = 99 }

abbrev last : Chunks
last = (near_origin, dying) ∷ []

dying-IsState : IsState near_origin dying
dying-IsState = record { same_id = refl; valid = one_cell-IsValid; patient = omega arith }

last-IsRegistry : IsRegistry last
unfolding put
last-IsRegistry = put-IsRegistry near_origin dying active dying-IsState active-IsRegistry

last-found : find near_origin last ≡ some dying
unfolding find
last-found = refl

abbrev dead : Chunk
dead = set_rows dying.chunk (tick_bitset near_origin one_cell [] no_counts).0

abbrev told : Behind values
told = show_clients values every_write_works [] behind near_origin (snapshot dead)

told-stored :
    loaded_by (load_chunk values told.store near_origin)
    ≡ loaded_by (load_chunk values behind.store near_origin)
unfolding show_clients
told-stored = refl

dead-saved :
    redis.load (redis.persist told dead) near_origin
    ≡ (if id_eq near_origin near_origin then loaded dead else redis.load told near_origin)
unfolding set_rows save_chunk
dead-saved =
    load-keep_saved-some values told dead near_origin
      (written told.store near_origin (loaded_fields (marshal_alias dead)))
      (save_chunk values told.store dead) refl refl
      (tick_bitset_lem near_origin one_cell [] (omega arith, omega arith) one_cell-IsValid tt tt).0

process_job_lem_example :
    let next = (tick_bitset near_origin one_cell [] no_counts).0 in
    let done = process_job redis near_origin dying one_cell [] no_counts (behind, last) in
    IsRegistry done.0.1
    × (rows_seen redis done.0.0 near_origin done.0.1
        ≡ (if id_eq near_origin near_origin then next else rows_seen redis behind near_origin last))
    × ((find near_origin done.0.1 ≡ none) ↔ (
        (next ≡ no_rows)
        × (redis.has_subscribers told near_origin ≡ false)
        × (100 ≤ dying.idle_ticks + 1)))
    × (done.1 ≡ no_counts)
process_job_lem_example =
    process_job_lem redis near_origin near_origin dying one_cell [] behind last
      (omega arith, omega arith) one_cell-IsValid tt tt last-IsRegistry last-found told-stored
      dead-saved

-- ===== src/Simulation/Registry/Invariant.antt =====
-- The invariant of the registry's map, and what GetOrCreate, ProcessSpawn and PeekChunk do to the cells of
-- the world.
use distributed_game_of_life.Prelude.{
  ◌<◌, ◌≡◌, refl, sym, arith, if◌then◌else◌, Option, none, some, Bool-cases, inl, inr,
}
use mathlib.Core.Option.{some-injective}
use distributed_game_of_life.Simulation.Chunk.{ChunkId, Rows, Chunk, no_rows, new_chunk}
use distributed_game_of_life.Simulation.Chunk.Cells.{IsValid, no_rows-IsValid}
use distributed_game_of_life.Simulation.ChunkMap.{
  id_eq, id_eq_iff, find, DistinctKeys, put, find-put, put-DistinctKeys,
}
use distributed_game_of_life.Simulation.Registry.{
  ChunkState, Chunks, Loaded, loaded, nothing, load_error, Config, hydrated, add_if_absent,
  get_or_create,
}

-- What holds of the state under a key: it is that of the chunk of this ID, and not due to hibernate.
pub record IsState (key : ChunkId) (state : ChunkState) : Type 0 where
  pub same_id : state.chunk.id ≡ key
  pub valid : IsValid state.chunk.rows
  pub patient : state.idle_ticks < 100

pub record IsRegistry (m : Chunks) : Type 0 where
  pub distinct : DistinctKeys m
  pub states : (k : ChunkId) (state : ChunkState) → find k m ≡ some state → IsState k state

abbrev pub rows_of : Option ChunkState → Rows
rows_of none = no_rows
rows_of (some state) = state.chunk.rows

-- The rows of a chunk; those of a chunk that is not active are blank.
unfoldable pub rows_in : ChunkId → Chunks → Rows
rows_in id m = rows_of (find id m)

pub put-IsRegistry :
    (k : ChunkId) (state : ChunkState) (m : Chunks)
    → IsState k state
    → IsRegistry m
    → IsRegistry (put k state m)
put-IsRegistry k state m s r = record {
  distinct = put-DistinctKeys k state m r.distinct;
  states = λ j other e. elim (Bool-cases (id_eq k j)) [
    | inl same ↦
        let it : some state ≡ some other = rw (find-put k j state m, same) at e in
        rw (sym (some-injective state other it), sym ((id_eq_iff k j).0 same)) s
    | inr apart ↦ r.states j other (rw (find-put k j state m, apart) at e)
  ];
}

pub hydrated-IsValid :
    (config : Config) (o : config.Outside) (id : ChunkId) (l : Loaded)
    → config.load o id ≡ l
    → (hydrated id l).id ≡ id × IsValid (hydrated id l).rows
unfolding hydrated new_chunk
hydrated-IsValid config o id (loaded c) e = (config.load-id o id c e, config.load-IsValid o id c e)
hydrated-IsValid config o id nothing e = (refl, no_rows-IsValid)
hydrated-IsValid config o id load_error e = (refl, no_rows-IsValid)

-- The state of a chunk after GetOrCreate.
abbrev pub state_or : Chunk → Option ChunkState → ChunkState
state_or c none = record { chunk = c; idle_ticks = 0 }
state_or c (some state) = state

add_if_absent_lem :
    (id j : ChunkId) (c : Chunk) (found : Option ChunkState) (m : Chunks)
    → find id m ≡ found
    → find j (add_if_absent id c found m)
      ≡ (if id_eq id j then some (state_or c found) else find j m)
unfolding add_if_absent
add_if_absent_lem id j c none m e = find-put id j (record { chunk = c; idle_ticks = 0 }) m
add_if_absent_lem id j c (some state) m e = elim (Bool-cases (id_eq id j)) [
  | inl same ↦ rw (same, sym ((id_eq_iff id j).0 same)) e
  | inr other ↦ rw other refl
]

add_if_absent-IsRegistry :
    (id : ChunkId) (c : Chunk) (found : Option ChunkState) (m : Chunks)
    → (c.id ≡ id) × IsValid c.rows
    → IsRegistry m
    → IsRegistry (add_if_absent id c found m)
unfolding add_if_absent
add_if_absent-IsRegistry id c none m ok r =
    put-IsRegistry id (record { chunk = c; idle_ticks = 0 }) m
      (record { same_id = ok.0; valid = ok.1; patient = omega arith }) r
add_if_absent-IsRegistry id c (some state) m ok r = r

module _ (config : Config) where
  open config use {Outside, load}

  -- GetOrCreate keeps the registry well formed. A chunk that is active stays as it is; one that is not
  -- becomes active with what Load returned, or blank, and no other entry changes.
  pub get_or_create_lem :
      (o : Outside) (id j : ChunkId) (m : Chunks)
      → IsRegistry m
      → IsRegistry (get_or_create config o id m)
        × (find j (get_or_create config o id m) ≡ (
            if id_eq id j then some (state_or (hydrated id (load o id)) (find id m)) else find j m))
  unfolding get_or_create
  get_or_create_lem o id j m r =
      let c = hydrated id (load o id) in
      (
        add_if_absent-IsRegistry id c (find id m) m (hydrated-IsValid config o id (load o id) refl)
            r,
        add_if_absent_lem id j c (find id m) m refl,
      )

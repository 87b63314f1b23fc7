-- ===== src/Simulation/Registry/Spawns.antt =====
-- A spawned cell is alive in the world, and a peeked chunk looks like the active one.
use distributed_game_of_life.Prelude.{
  ℕ, ◌≡◌, refl, sym, ◌∙◌, true, ◌&&◌, ◌||◌, ◌==◌, [], Option, none, some, Bool-cases, inl, inr,
}
use distributed_game_of_life.Simulation.Chunk.{
  ChunkId, new_chunk, add_cell, snapshot, rows_to_offsets,
}
use distributed_game_of_life.Simulation.Chunk.Cells.{cell, in_chunk, add_cell_lem}
use distributed_game_of_life.Simulation.ChunkMap.{id_eq, id_eq_iff, find, find-put}
use distributed_game_of_life.Simulation.Registry.{
  ChunkState, Chunks, Loaded, loaded, nothing, load_error, Config, hydrated, snapshot_of, spawn_in,
  get_or_create, peek, peek_chunk, spawn_cell,
}
use distributed_game_of_life.Simulation.Registry.Invariant.{
  IsRegistry, rows_in, put-IsRegistry, state_or, get_or_create_lem,
}

id_eq_refl : (k : ChunkId) → id_eq k k ≡ true
id_eq_refl k = (id_eq_iff k k).1 refl

spawn_in_lem :
    (id j : ChunkId) (x y a b : ℕ) (state : ChunkState) (m : Chunks)
    → find id m ≡ some state
    → in_chunk x y ≡ true
    → IsRegistry m
    → IsRegistry (spawn_in id x y (some state) m)
      × (cell (rows_in j (spawn_in id x y (some state) m)) a b
          ≡ (id_eq id j && x == a && y == b || cell (rows_in j m) a b))
unfolding spawn_in rows_in
spawn_in_lem id j x y a b state m found inside r =
    let s = r.states id state found in
    let added = add_cell_lem state.chunk x y s.valid in
    let next : ChunkState = record state { chunk = add_cell state.chunk x y } in
    (
      put-IsRegistry id next m
          (record { same_id = added.1 ∙ s.same_id; valid = added.0; patient = s.patient }) r,
      rw (find-put id j next m) (elim (Bool-cases (id_eq id j)) [
        | inl same ↦ rw (same, sym ((id_eq_iff id j).0 same), found) (added.2 a b ∙ rw inside refl)
        | inr other ↦ rw other refl
      ]),
    )

module _ (config : Config) where
  open config use {Outside, load}

  created : Outside → ChunkId → Chunks → ChunkState
  created o id m = state_or (hydrated id (load o id)) (find id m)

  find-created :
      (o : Outside) (id : ChunkId) (m : Chunks)
      → IsRegistry m
      → find id (get_or_create config o id m) ≡ some (created o id m)
  unfolding created
  find-created o id m r = (get_or_create_lem config o id id m r).1 ∙ rw (id_eq_refl id) refl

  -- Spawning a cell whose local coordinates are in the chunk keeps the registry well formed, makes that
  -- cell of that chunk alive, and changes no other cell of what GetOrCreate leaves.
  pub spawn_cell_lem :
      (o : Outside) (id j : ChunkId) (x y a b : ℕ) (m : Chunks)
      → in_chunk x y ≡ true
      → IsRegistry m
      → IsRegistry (spawn_cell config o id x y m)
        × (cell (rows_in j (spawn_cell config o id x y m)) a b ≡ (
            id_eq id j && x == a && y == b || cell (rows_in j (get_or_create config o id m)) a b))
  unfolding spawn_cell
  spawn_cell_lem o id j x y a b m inside r =
      let active = get_or_create config o id m in
      let found = find-created o id m r in
      rw found (
        spawn_in_lem id j x y a b (created o id m) active found inside
          (get_or_create_lem config o id j m r).0)

  snapshot_blank : (id : ChunkId) → snapshot (new_chunk id.x id.y) ≡ []
  unfolding snapshot new_chunk rows_to_offsets
  snapshot_blank id = refl

  snapshot-hydrated : (id : ChunkId) (l : Loaded) → snapshot (hydrated id l) ≡ snapshot_of l
  unfolding hydrated
  snapshot-hydrated id (loaded c) = refl
  snapshot-hydrated id nothing = snapshot_blank id
  snapshot-hydrated id load_error = snapshot_blank id

  pub peek_lem :
      (o : Outside) (id : ChunkId) (found : Option ChunkState)
      → peek config o id found ≡ snapshot (state_or (hydrated id (load o id)) found).chunk
  unfolding peek
  peek_lem o id none = sym (snapshot-hydrated id (load o id))
  peek_lem o id (some state) = refl

  -- PeekChunk shows the cells that the chunk would have if GetOrCreate made it active.
  pub peek_chunk-get_or_create :
      (o : Outside) (id : ChunkId) (m : Chunks)
      → IsRegistry m
      → peek_chunk config o id m ≡ rows_to_offsets (rows_in id (get_or_create config o id m))
  unfolding peek_chunk rows_in snapshot created
  peek_chunk-get_or_create o id m r = rw (find-created o id m r) (peek_lem o id (find id m))

  spawn_in-IsRegistry :
      (id : ChunkId) (x y : ℕ) (found : Option ChunkState) (m : Chunks)
      → find id m ≡ found
      → IsRegistry m
      → IsRegistry (spawn_in id x y found m)
  unfolding spawn_in
  spawn_in-IsRegistry id x y none m e r = r
  spawn_in-IsRegistry id x y (some state) m e r =
      let s = r.states id state e in
      let added = add_cell_lem state.chunk x y s.valid in
      put-IsRegistry id (record state { chunk = add_cell state.chunk x y }) m
        (record { same_id = added.1 ∙ s.same_id; valid = added.0; patient = s.patient }) r

  pub spawn_cell-IsRegistry :
      (o : Outside) (id : ChunkId) (x y : ℕ) (m : Chunks)
      → IsRegistry m
      → IsRegistry (spawn_cell config o id x y m)
  unfolding spawn_cell
  spawn_cell-IsRegistry o id x y m r =
      let active = get_or_create config o id m in
      spawn_in-IsRegistry id x y (find id active) active refl
        (get_or_create_lem config o id id m r).0

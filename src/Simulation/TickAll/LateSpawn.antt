-- ===== src/Simulation/TickAll/LateSpawn.antt =====
-- A cell that is spawned between the snapshot of its chunk and the chunk's job.
use distributed_game_of_life.Prelude.{
  ℕ, ◌≡◌, refl, sym, ◌∙◌, Bool-cases, List, Option, none, some, inl, inr,
}
use distributed_game_of_life.Simulation.Chunk.{ChunkId, add_cell}
use distributed_game_of_life.Simulation.ChunkMap.{id_eq, find, find-put, DistinctKeys}
use distributed_game_of_life.Simulation.Registry.{
  ChunkState, Chunks, Config, get_or_create, spawn_in, spawn_cell,
}
use distributed_game_of_life.Simulation.Registry.Invariant.{IsRegistry, rows_in}
use distributed_game_of_life.Simulation.Registry.Spawns.{spawn_cell-IsRegistry}
use distributed_game_of_life.Simulation.Registry.Lifetime.{IsKept}
use distributed_game_of_life.Simulation.TickAll.{Work, Pool, run_jobs}
use distributed_game_of_life.Simulation.TickAll.Spread.{HasIds, spawn_in-HasIds}
use distributed_game_of_life.Simulation.TickAll.Run.{AreReady, AreClean, run_jobs_lem}

-- No chunk stops being active when a cell is spawned.
stays_active :
    (id k : ChunkId) (x y : ℕ) (found : Option ChunkState) (state : ChunkState) (m : Chunks)
    → find k m ≡ some state
    → (after : ChunkState) × (find k (spawn_in id x y found m) ≡ some after)
unfolding spawn_in
stays_active id k x y none state m there = (state, there)
stays_active id k x y (some old) state m there =
    let added : ChunkState = record old { chunk = add_cell old.chunk x y } in
    elim (Bool-cases (id_eq id k)) [
      | inl same ↦ (added, find-put id k added m ∙ rw same refl)
      | inr other ↦ (state, find-put id k added m ∙ rw other there)
    ]

module _ (config : Config) where
  open config use {Outside, load}

  spawn_cell-active :
      (o : Outside) (id : ChunkId) (x y : ℕ) (m : Chunks) (state : ChunkState)
      → find id m ≡ some state
      → spawn_cell config o id x y m ≡ spawn_in id x y (find id m) m
  unfolding spawn_cell get_or_create
  spawn_cell-active o id x y m state there = rw (there, there) refl

  spawn_cell-AreReady :
      (o : Outside) (id : ChunkId) (x y : ℕ) (m : Chunks) (state : ChunkState)
      (js : List (ChunkId × Work))
      → find id m ≡ some state
      → AreReady js m
      → AreReady js (spawn_cell config o id x y m)
  spawn_cell-AreReady o id x y m state js there ready k work listed =
      let job = ready k work listed in
      rw (spawn_cell-active o id x y m state there)
        (job.0, stays_active id k x y (find id m) job.1.0 m job.1.1)

  -- A cell that is spawned in an active chunk after its job was made, and before the jobs run, is lost:
  -- the chunk's rows after the jobs are the same as without the spawn. The jobs are of different active
  -- chunks of a well-formed registry, with 64-bit IDs, valid rows and valid halos, and the buffers
  -- zeroed.
  pub run_jobs-spawn_cell :
      (worker_of : ChunkId → ℕ) (js : List (ChunkId × Work)) (p : Pool config) (id : ChunkId)
      (x y : ℕ) (work : Work)
      → DistinctKeys js
      → AreReady js p.0.1
      → IsRegistry p.0.1
      → HasIds p.0.1
      → AreClean p.1
      → find id js ≡ some work
      → rows_in id
          (run_jobs config worker_of js ((p.0.0, spawn_cell config p.0.0 id x y p.0.1), p.1)).0.1
        ≡ rows_in id (run_jobs config worker_of js p).0.1
  run_jobs-spawn_cell worker_of js ((o, m), scratches) id x y work d ready r ids clean listed =
      let anything = λ (o : Outside). Unit {0} in
      let kept : IsKept config anything = (λ o id cells h. tt, λ o c e h. tt) in
      let own = ready id work listed in
      let state = own.1.0 in
      let there = own.1.1 in
      let spawned = spawn_cell config o id x y m in
      let spawned_ids : HasIds spawned =
        rw (spawn_cell-active o id x y m state there)
          (spawn_in-HasIds id x y (find id m) m own.0.hid ids) in
      let with_cell =
        run_jobs_lem config anything kept worker_of js ((o, spawned), scratches) d
          (spawn_cell-AreReady o id x y m state js there ready)
          (spawn_cell-IsRegistry config o id x y m r) spawned_ids clean tt in
      let without =
        run_jobs_lem config anything kept worker_of js ((o, m), scratches) d ready r ids clean tt in
      with_cell.rows id ∙ rw listed refl ∙ sym (without.rows id)

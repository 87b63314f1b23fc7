-- ===== src/Simulation/TickAll/Generation.antt =====
-- TickAll computes one generation of the whole world.
use distributed_game_of_life.Prelude.{
  ℕ, ◌≡◌, ◌<◌, inl, inr, refl, sym, ap, ◌∙◌, arith, false, one_if, List, none, Option-cases,
}
use mathlib.Core.Option.{some-injective}
use distributed_game_of_life.Simulation.Chunk.{ChunkId, no_rows}
use distributed_game_of_life.Simulation.Chunk.Cells.{cell, cell-no_rows}
use distributed_game_of_life.Simulation.ChunkMap.{find, DistinctKeys}
use distributed_game_of_life.Simulation.Engine.{Counts}
use distributed_game_of_life.Simulation.Engine.Placement.{around_ext_in}
use distributed_game_of_life.Simulation.Engine.Rules.{lives}
use distributed_game_of_life.Simulation.Engine.Shown.{IsId, inner, neighbour_at}
use distributed_game_of_life.Simulation.Engine.Tick.{tick_bitset_lem}
use distributed_game_of_life.Simulation.Registry.{ChunkState, Chunks, Config}
use distributed_game_of_life.Simulation.Registry.Invariant.{IsRegistry, rows_in}
use distributed_game_of_life.Simulation.Registry.Lifetime.{IsKept}
use distributed_game_of_life.Simulation.TickAll.{
  Work, Pool, snapshot_rows, halos_of, distributed, tick_jobs, tick_all,
}
use distributed_game_of_life.Simulation.TickAll.Spread.{HasIds}
use distributed_game_of_life.Simulation.TickAll.Growth.{LoadsBlank, IsSpread, distributed-IsSpread}
use distributed_game_of_life.Simulation.TickAll.Seen.{world_cell, shown-world_cell}
use distributed_game_of_life.Simulation.TickAll.Run.{
  IsRunnable, AreReady, AreClean, rows_after, next_of, run_jobs_lem,
}
use distributed_game_of_life.Simulation.TickAll.Orders.{
  around_none, job_rows, jobs-DistinctKeys, find-jobs, world_neighbours, IsSchedule, IsOrder,
}

module _ (config : Config) where
  open config use {Outside}

  pub tick_jobs-AreReady :
      (o : Outside) (m : Chunks)
      → IsRegistry m
      → IsSpread config m (distributed config o m)
      → AreReady (tick_jobs config o m) (distributed config o m).0
  unfolding tick_jobs rows_in
  tick_jobs-AreReady o m r sp k work e =
      let m' = (distributed config o m).0 in
      let given = (distributed config o m).1 in
      let listed = sym (find-jobs (snapshot_rows m) given k m') ∙ e in
      elim (Option-cases (find k m')) [
        | inl absent ↦ absurd (cc (rw absent at listed))
        | inr (state, there) ↦
            let it = some-injective _ work (rw there at listed) in
            (
              rw (sym it) (record {
                hid = sp.grown.ids k state there;
                valid =
                    rw (job_rows m m' k state sp.grown there, sym (sp.grown.same k), rows_in, there)
                      (sp.grown.registry.states k state there).valid;
                halos = sp.given.around k;
                distinct = sp.given.distinct k;
              }),
              (state, there),
            )
      ]

  -- A chunk that is not active after the halos are given has dead cells in and around it.
  asleep :
      (o : Outside) (m : Chunks) (id : ChunkId) (qx qy : ℕ)
      → IsRegistry m
      → IsSpread config m (distributed config o m)
      → IsId id
      → find id (distributed config o m).0 ≡ none
      → qx < 66
      → qy < 66
      → world_cell id m qx qy ≡ false
  unfolding rows_in
  asleep o m id qx qy r sp hid absent hx hy =
      let blank : rows_in id m ≡ no_rows = sym (sp.grown.same id) ∙ rw (rows_in, absent) refl in
      let seen = rw blank at (shown-world_cell config o m id qx qy r hid hx hy) in
      let nothing : find (neighbour_at id qx qy) (halos_of id (distributed config o m).1) ≡ none =
        elim (Option-cases
          (find (neighbour_at id qx qy) (halos_of id (distributed config o m).1))) [
            | inl none_there ↦ none_there
            | inr (halo, there) ↦
                let woken = sp.given.awake id (neighbour_at id qx qy) halo there in
                absurd (cc (sym absent ∙ woken.1))
          ] in
      sym seen ∙ rw (nothing, cell-no_rows (inner qx) (inner qy)) (ground arith)

  woken_cell :
      (o : Outside) (m : Chunks) (id : ChunkId) (state : ChunkState) (x y : ℕ)
      → IsRegistry m
      → IsSpread config m (distributed config o m)
      → IsRunnable id
          (record { rows = rows_in id m; halos = halos_of id (distributed config o m).1 })
      → x < 64
      → y < 64
      → cell
          (next_of id
            (record { rows = rows_in id m; halos = halos_of id (distributed config o m).1 }))
          x
          y
        ≡ lives (cell (rows_in id m) x y) (world_neighbours id m x y)
  woken_cell o m id state x y r sp w hx hy =
      (tick_bitset_lem id (rows_in id m) (halos_of id (distributed config o m).1) w.hid w.valid
          w.halos w.distinct).1
        x y hx hy
      ∙ ap (lives (cell (rows_in id m) x y)) (
          around_ext_in _ (λ qx qy. one_if (world_cell id m qx qy)) x y hx hy
            (λ qx qy lx ly. ap one_if (shown-world_cell config o m id qx qy r w.hid lx ly)))

  asleep_cell :
      (o : Outside) (m : Chunks) (id : ChunkId) (x y : ℕ)
      → IsRegistry m
      → IsSpread config m (distributed config o m)
      → IsId id
      → find id (distributed config o m).0 ≡ none
      → x < 64
      → y < 64
      → cell (rows_in id (distributed config o m).0) x y
        ≡ lives (cell (rows_in id m) x y) (world_neighbours id m x y)
  unfolding rows_in
  asleep_cell o m id x y r sp hid absent hx hy =
      let blank : rows_in id m ≡ no_rows = sym (sp.grown.same id) ∙ rw absent refl in
      let lonely : world_neighbours id m x y ≡ 0 =
        around_none (λ qx qy. one_if (world_cell id m qx qy)) x y hx hy
          (λ qx qy lx ly. ap one_if (asleep o m id qx qy r sp hid absent lx ly)) in
      rw (sp.grown.same id, blank, lonely, cell-no_rows x y) refl

  next_cell :
      (o : Outside) (m : Chunks) (id : ChunkId) (x y : ℕ)
      → IsRegistry m
      → IsSpread config m (distributed config o m)
      → AreReady (tick_jobs config o m) (distributed config o m).0
      → IsId id
      → x < 64
      → y < 64
      → cell
          (rows_after id (find id (tick_jobs config o m)) (rows_in id (distributed config o m).0))
          x
          y
        ≡ lives (cell (rows_in id m) x y) (world_neighbours id m x y)
  unfolding tick_jobs
  next_cell o m id x y r sp ready hid hx hy =
      let m' = (distributed config o m).0 in
      let given = (distributed config o m).1 in
      let listed = find-jobs (snapshot_rows m) given id m' in
      elim (Option-cases (find id m')) [
        | inl absent ↦ rw (listed, absent) (asleep_cell o m id x y r sp hid absent hx hy)
        | inr (state, there) ↦
            let own = job_rows m m' id state sp.grown there in
            let job = listed ∙ rw (there, own) refl in
            rw job (
              woken_cell o m id state x y r sp
                (ready id (record { rows = rows_in id m; halos = halos_of id given }) job).0 hx hy)
      ]

  pub tick_jobs-DistinctKeys :
      (o : Outside) (m : Chunks)
      → IsSpread config m (distributed config o m)
      → DistinctKeys (tick_jobs config o m)
  unfolding tick_jobs
  tick_jobs-DistinctKeys o m sp =
      jobs-DistinctKeys (snapshot_rows m) (distributed config o m).1 (distributed config o m).0
        sp.grown.registry.distinct

  pub reordered :
      (js others : List (ChunkId × Work)) (m : Chunks)
      → IsOrder js others
      → AreReady others m
      → AreReady js m
  reordered js others m order ready k work e = ready k work (sym (order.same k) ∙ e)

module _ (config : Config) (Holds : config.Outside → Type 0) (kept : IsKept config Holds) where
  open config use {Outside}

  -- The generation that TickAll computes, with what holds of the state behind the registry.
  pub record IsGeneration (m : Chunks) (p : Pool config) : Type 0 where
    pub registry : IsRegistry p.0.1
    pub ids : HasIds p.0.1
    pub clean : AreClean p.1
    pub outside : Holds p.0.0
    pub cells :
        (id : ChunkId) (x y : ℕ)
        → IsId id
        → x < 64
        → y < 64
        → cell (rows_in id p.0.1) x y ≡ lives (cell (rows_in id m) x y) (world_neighbours id m x y)

  pub tick_all-IsGeneration :
      (schedule : List (ChunkId × Work) → List (ChunkId × Work)) (worker_of : ChunkId → ℕ)
      (o : Outside) (m : Chunks) (scratches : ℕ → Counts)
      → IsSchedule schedule
      → LoadsBlank config o m
      → IsRegistry m
      → HasIds m
      → AreClean scratches
      → Holds o
      → IsGeneration m (tick_all config schedule worker_of ((o, m), scratches))
  unfolding tick_all
  tick_all-IsGeneration schedule worker_of o m scratches fair blank r ids clean holds =
      let sp = distributed-IsSpread config o m blank r ids in
      let js = tick_jobs config o m in
      let order = fair js (tick_jobs-DistinctKeys config o m sp) in
      let ready = tick_jobs-AreReady config o m r sp in
      let done =
        run_jobs_lem config Holds kept worker_of (schedule js)
          ((o, (distributed config o m).0), scratches) order.distinct
          (reordered config (schedule js) js (distributed config o m).0 order ready)
          sp.grown.registry sp.grown.ids clean holds in
      record {
        registry = done.registry;
        ids = done.ids;
        clean = done.clean;
        outside = done.outside;
        cells = λ id x y hid hx hy.
            rw (done.rows id, order.same id) (next_cell config o m id x y r sp ready hid hx hy);
      }

module _ (config : Config) where
  open config use {Outside}

  -- TickAll, from a well-formed registry of chunks with 64-bit IDs and with zeroed buffers, computes
  -- one generation of the whole world: each cell of each chunk with a 64-bit ID, active or not, is what
  -- Conway's rules make of its state and of the number of its eight neighbours alive before, whichever
  -- worker takes which job and in which order. The registry stays well formed and the buffers zeroed.
  -- The chunks that are not active must load as blank ones.
  pub tick_all_lem :
      (schedule : List (ChunkId × Work) → List (ChunkId × Work)) (worker_of : ChunkId → ℕ)
      (o : Outside) (m : Chunks) (scratches : ℕ → Counts) (id : ChunkId) (x y : ℕ)
      → IsSchedule schedule
      → LoadsBlank config o m
      → IsRegistry m
      → HasIds m
      → AreClean scratches
      → IsId id
      → x < 64
      → y < 64
      → let after = tick_all config schedule worker_of ((o, m), scratches) in
        (cell (rows_in id after.0.1) x y
          ≡ lives (cell (rows_in id m) x y) (world_neighbours id m x y))
        × IsRegistry after.0.1
        × HasIds after.0.1
        × AreClean after.1
  tick_all_lem schedule worker_of o m scratches id x y fair blank r ids clean hid hx hy =
      let anything = λ (o : Outside). Unit {0} in
      let done =
        tick_all-IsGeneration config anything (λ o id cells h. tt, λ o c e h. tt) schedule worker_of
          o m scratches fair blank r ids clean tt in
      (done.cells id x y hid hx hy, done.registry, done.ids, done.clean)

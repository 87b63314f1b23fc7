-- ===== src/Tests/TickAll.antt =====
-- Tests of the model of Registry.TickAll: a row of three cells at the corner of a chunk below the origin.
use distributed_game_of_life.Prelude.{ℕ, ◌≡◌, refl, inr, sym, arith, [], ◌∷◌, inl, Bool-cases, List}
use distributed_game_of_life.Simulation.Chunk.{ChunkId, new_chunk}
use distributed_game_of_life.Simulation.Chunk.Cells.{cell}
use distributed_game_of_life.Simulation.ChunkMap.{DistinctKeys, id_eq, id_eq_iff, find}
use distributed_game_of_life.Simulation.Engine.{Counts, no_counts}
use distributed_game_of_life.Simulation.Engine.Rules.{lives}
use distributed_game_of_life.Simulation.Engine.Shown.{IsId}
use distributed_game_of_life.Simulation.Registry.{hydrated}
use distributed_game_of_life.Simulation.Registry.Invariant.{IsRegistry, rows_in}
use distributed_game_of_life.Simulation.TickAll.{Work, tick_all}
use distributed_game_of_life.Simulation.TickAll.Spread.{HasIds}
use distributed_game_of_life.Simulation.TickAll.Run.{AreClean}
use distributed_game_of_life.Simulation.TickAll.Orders.{IsSchedule, world_neighbours}
use distributed_game_of_life.Simulation.TickAll.Generation.{tick_all_lem}
use distributed_game_of_life.Simulation.TickAll.Ticks.{
  Round, StoresBlank, IsStore, generations, grid_of, ticks, ticks-refines,
}
use distributed_game_of_life.Prelude.{replicate, none, some}
use distributed_game_of_life.Simulation.Chunk.{no_rows}
use distributed_game_of_life.Simulation.Chunk.Cells.{no_rows-IsValid}
use distributed_game_of_life.Simulation.ChunkMap.{find, has_key, id_eq, id_eq_iff}
use mathlib.Core.Option.{some-injective}
use distributed_game_of_life.Simulation.Registry.{ChunkState, Chunks}
use distributed_game_of_life.Simulation.TickAll.Hibernation.{ticks-hibernates}
use distributed_game_of_life.Simulation.Registry.{spawn_cell}
use distributed_game_of_life.Simulation.TickAll.{run_jobs}
use distributed_game_of_life.Simulation.TickAll.Run.{AreReady}
use distributed_game_of_life.Simulation.TickAll.LateSpawn.{run_jobs-spawn_cell}
use distributed_game_of_life.Simulation.Workers.{Action, sends, takes, finishes}
use distributed_game_of_life.Simulation.Workers.Schedules.{pool_round}
use distributed_game_of_life.Tests.Registry.{
  three, row_of_three, row_of_three-IsValid, active-found, alone, active, active-IsRegistry,
  near_origin,
}

abbrev pub clean : ℕ → Counts
clean worker = no_counts

abbrev pub in_order : List (ChunkId × Work) → List (ChunkId × Work)
in_order js = js

pub in_order-IsSchedule : IsSchedule in_order
in_order-IsSchedule js d = record { distinct = d; same = λ k. refl }

pub near_origin-IsId : IsId near_origin
near_origin-IsId = (omega arith, omega arith)

pub active-HasIds : HasIds active
unfolding find
active-HasIds k state e = elim (Bool-cases (id_eq near_origin k)) [
  | inl same ↦ rw (sym ((id_eq_iff near_origin k).0 same)) near_origin-IsId
  | inr other ↦ absurd (cc (rw (find, other) at e))
]

pub alone-StoresBlank : (o : ℕ) → StoresBlank alone o
unfolding hydrated new_chunk
alone-StoresBlank o k = refl

alone-IsStore : IsStore alone
alone-IsStore = record { load-on_tick = λ o id k cells. refl; load-persist = λ o c k v. inr refl }

tick_all_lem_example :
    let after = tick_all alone in_order (λ id. 0) ((0, active), clean) in
    (cell (rows_in near_origin after.0.1) 2 1
      ≡ lives (cell (rows_in near_origin active) 2 1) (world_neighbours near_origin active 2 1))
    × IsRegistry after.0.1
    × HasIds after.0.1
    × AreClean after.1
tick_all_lem_example =
    tick_all_lem alone in_order (λ id. 0) 0 active clean near_origin 2 1 in_order-IsSchedule
      (λ k absent. alone-StoresBlank 0 k) active-IsRegistry active-HasIds (λ worker. refl)
      near_origin-IsId (omega arith) (omega arith)

-- Each job is finished before the next one is sent.
abbrev one_by_one : List (ChunkId × Work) → List (Action (ChunkId × Work))
one_by_one [] = []
one_by_one (j ∷ js) = sends ∷ takes 0 ∷ finishes 0 ∷ one_by_one js

abbrev two_rounds : List Round
two_rounds =
    pool_round 1 one_by_one (λ id. 0) (omega arith)
    ∷ record { schedule = in_order; worker_of = λ id. 3; fair = in_order-IsSchedule }
    ∷ []

ticks-refines_example :
    let after = ticks alone two_rounds ((0, active), clean) in
    (cell (rows_in near_origin after.0.1) 2 1 ≡ generations 2 (grid_of active) near_origin 2 1)
    × StoresBlank alone after.0.0
    × IsRegistry after.0.1
    × HasIds after.0.1
    × AreClean after.1
ticks-refines_example =
    ticks-refines alone two_rounds ((0, active), clean) near_origin 2 1 alone-IsStore
      (alone-StoresBlank 0) active-IsRegistry active-HasIds (λ worker. refl) near_origin-IsId
      (omega arith) (omega arith)

abbrev blank_state : ChunkState
blank_state = record { chunk = record { id = near_origin; rows = no_rows }; idle_ticks = 7 }

abbrev dead_world : Chunks
dead_world = (near_origin, blank_state) ∷ []

dead_world-only :
    (k : ChunkId) (state : ChunkState)
    → find k dead_world ≡ some state
    → (near_origin ≡ k) × (blank_state ≡ state)
unfolding find
dead_world-only k state e = elim (Bool-cases (id_eq near_origin k)) [
  | inl same ↦
      ((id_eq_iff near_origin k).0 same, some-injective blank_state state (rw (find, same) at e))
  | inr other ↦ absurd (cc (rw (find, other) at e))
]

dead_world-IsRegistry : IsRegistry dead_world
unfolding has_key
dead_world-IsRegistry = record {
  distinct = (refl, tt);
  states = λ k state e.
      let it = dead_world-only k state e in
      rw (sym it.0, sym it.1)
        (record { same_id = refl; valid = no_rows-IsValid; patient = omega arith });
}

abbrev a_hundred_rounds : List Round
a_hundred_rounds =
    replicate 100 (record { schedule = in_order; worker_of = λ id. 0; fair = in_order-IsSchedule })

ticks-hibernates_example :
    find near_origin (ticks alone a_hundred_rounds ((0, dead_world), clean)).0.1 ≡ none
ticks-hibernates_example =
    ticks-hibernates alone a_hundred_rounds ((0, dead_world), clean) near_origin (λ o id. refl)
      dead_world-IsRegistry (λ k state e. rw (sym (dead_world-only k state e).0) near_origin-IsId)
      (λ k state e. rw (sym (dead_world-only k state e).1) refl) (λ worker. refl) (omega arith)

abbrev row_work : Work
row_work = record { rows = row_of_three; halos = [] }

abbrev row_jobs : List (ChunkId × Work)
row_jobs = (near_origin, row_work) ∷ []

row_jobs-only :
    (k : ChunkId) (work : Work)
    → find k row_jobs ≡ some work
    → (near_origin ≡ k) × (row_work ≡ work)
unfolding find
row_jobs-only k work e = elim (Bool-cases (id_eq near_origin k)) [
  | inl same ↦
      ((id_eq_iff near_origin k).0 same, some-injective row_work work (rw (find, same) at e))
  | inr other ↦ absurd (cc (rw (find, other) at e))
]

row_jobs-AreReady : AreReady row_jobs active
row_jobs-AreReady k work e =
    let it = row_jobs-only k work e in
    rw (sym it.0, sym it.1)
      (
        record { hid = near_origin-IsId; valid = row_of_three-IsValid; halos = tt; distinct = tt },
        (three, active-found),
      )

row_jobs-DistinctKeys : DistinctKeys row_jobs
unfolding has_key
row_jobs-DistinctKeys = (refl, tt)

row_jobs-first : find near_origin row_jobs ≡ some row_work
unfolding find
row_jobs-first = refl

run_jobs-spawn_cell_example :
    rows_in near_origin
      (run_jobs alone
        (λ id. 0)
        row_jobs
        ((0, spawn_cell alone 0 near_origin 40 40 active), clean)).0.1
    ≡ rows_in near_origin (run_jobs alone (λ id. 0) row_jobs ((0, active), clean)).0.1
run_jobs-spawn_cell_example =
    run_jobs-spawn_cell alone (λ id. 0) row_jobs ((0, active), clean) near_origin 40 40 row_work
      row_jobs-DistinctKeys row_jobs-AreReady active-IsRegistry active-HasIds (λ worker. refl)
      row_jobs-first

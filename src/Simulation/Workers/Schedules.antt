-- ===== src/Simulation/Workers/Schedules.antt =====
-- The rounds of the simulation that the worker pool makes.
use distributed_game_of_life.Prelude.{
  ℕ, ◌<◌, ◌≡◌, refl, ◌==◌, ==→≡, if◌then◌else◌, arith, List, Option, none, some, Option-cases,
  Bool-cases, inl, inr,
}
use distributed_game_of_life.Simulation.Chunk.{ChunkId}
use distributed_game_of_life.Simulation.ChunkMap.{DistinctKeys}
use distributed_game_of_life.Simulation.TickAll.{Work}
use distributed_game_of_life.Simulation.TickAll.Orders.{IsOrder, IsSchedule}
use distributed_game_of_life.Simulation.TickAll.Ticks.{Round}
use distributed_game_of_life.Simulation.Workers.{FanOut, fan_out, Action, act_all}
use distributed_game_of_life.Simulation.Workers.Returns.{fan_out-IsOrder}

abbrev pub Job : Type 0
Job = ChunkId × Work

-- The order in which the jobs are finished when TickAll returns, after the actions that take place.
abbrev pub finished_or : List Job → Option (FanOut Job) → List Job
finished_or js none = js
finished_or js (some s) = if s.waiting == 0 then s.finished else js

abbrev pub schedule_of : ℕ → (List Job → List (Action Job)) → List Job → List Job
schedule_of num_cpu acts js =
    finished_or js (act_all Job num_cpu (acts js) (fan_out Job num_cpu js))

returned-IsOrder :
    (num_cpu : ℕ) (js : List Job) (acts : List (Action Job)) (s : FanOut Job)
    → 0 < num_cpu
    → DistinctKeys js
    → act_all Job num_cpu acts (fan_out Job num_cpu js) ≡ some s
    → s.waiting ≡ 0
    → IsOrder s.finished js
returned-IsOrder num_cpu js acts s cpu distinct h returned =
    elim (fan_out-IsOrder num_cpu js acts s cpu distinct h).2 [
      | inl ended ↦ ended.1
      | inr more ↦ absurd (omega (arith, returned, more.0))
    ]

pub schedule_of-IsSchedule :
    (num_cpu : ℕ) (acts : List Job → List (Action Job))
    → 0 < num_cpu
    → IsSchedule (schedule_of num_cpu acts)
schedule_of-IsSchedule num_cpu acts cpu js distinct =
    elim (Option-cases (act_all Job num_cpu (acts js) (fan_out Job num_cpu js))) [
      | inl blocked ↦ rw blocked (record { distinct = distinct; same = λ k. refl })
      | inr (s, done) ↦ elim (Bool-cases (s.waiting == 0)) [
        | inl returned ↦
            rw (done, returned)
              (returned-IsOrder num_cpu js (acts js) s cpu distinct done
                (==→≡ s.waiting 0 returned))
        | inr early ↦ rw (done, early) (record { distinct = distinct; same = λ k. refl })
      ]
    ]

-- A round on the pool.
abbrev pub pool_round :
    (num_cpu : ℕ) (acts : List Job → List (Action Job)) (worker_of : ChunkId → ℕ)
    → 0 < num_cpu
    → Round
pool_round num_cpu acts worker_of cpu = record {
  schedule = schedule_of num_cpu acts;
  worker_of = worker_of;
  fair = schedule_of-IsSchedule num_cpu acts cpu;
}

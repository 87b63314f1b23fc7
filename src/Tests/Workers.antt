-- ===== src/Tests/Workers.antt =====
-- Three jobs on a machine with one CPU, whose channel has room for two.
use distributed_game_of_life.Prelude.{
  ◌≤◌, ◌<◌, ◌≡◌, ◌⊎◌, ◌*◌, refl, arith, length, List, [], ◌∷◌, none, some,
}
use distributed_game_of_life.Simulation.Chunk.{ChunkId}
use distributed_game_of_life.Simulation.ChunkMap.{DistinctKeys, has_key}
use distributed_game_of_life.Simulation.TickAll.{Work}
use distributed_game_of_life.Simulation.TickAll.Orders.{IsOrder}
use distributed_game_of_life.Simulation.Workers.{
  FanOut, fan_out, Action, sends, takes, finishes, act_all, job_capacity,
}
use distributed_game_of_life.Simulation.Workers.Returns.{CanAct, fan_out-IsOrder}
use distributed_game_of_life.Tests.Registry.{near_origin, elsewhere, row_of_three}

abbrev work : Work
work = record { rows = row_of_three; halos = [] }

abbrev three_jobs : List (ChunkId × Work)
three_jobs =
    (near_origin, work) ∷ (elsewhere, work) ∷ (record elsewhere { x = near_origin.x }, work) ∷ []

three_jobs-DistinctKeys : DistinctKeys three_jobs
unfolding has_key
three_jobs-DistinctKeys = (refl, (refl, (refl, tt)))

abbrev busy : List (Action (ChunkId × Work))
busy =
    sends ∷ sends ∷ takes 0 ∷ sends ∷ finishes 0 ∷ takes 0 ∷ finishes 0 ∷ takes 0 ∷ finishes 0 ∷ []

abbrev all_done : FanOut (ChunkId × Work)
all_done = record {
  unsent = [];
  queue = [];
  workers = none ∷ [];
  finished = three_jobs;
  waiting = 0;
}

busy_lem : act_all (ChunkId × Work) 1 busy (fan_out (ChunkId × Work) 1 three_jobs) ≡ some all_done
unfolding act_all
busy_lem = refl

-- The third job does not fit into the channel before a worker takes one.
blocked :
    act_all (ChunkId × Work) 1 (sends ∷ sends ∷ sends ∷ []) (fan_out (ChunkId × Work) 1 three_jobs)
    ≡ none
unfolding act_all
blocked = refl

fan_out-IsOrder_example :
    (length busy ≤ 3 * length three_jobs)
    × (length all_done.queue ≤ job_capacity 1)
    × (((all_done.waiting ≡ 0) × IsOrder all_done.finished three_jobs)
        ⊎ ((0 < all_done.waiting) × CanAct 1 all_done))
fan_out-IsOrder_example =
    fan_out-IsOrder 1 three_jobs busy all_done (omega arith) three_jobs-DistinctKeys busy_lem

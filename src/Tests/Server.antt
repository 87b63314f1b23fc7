-- ===== src/Tests/Server.antt =====
-- Tests of the model of the server: a subscription, a spawn, a tick, a message that cannot be read, and
-- a dropped connection.
use distributed_game_of_life.Prelude.{
  ℕ, ◌≡◌, refl, ap, sym, arith, Bool, false, List, [], ◌∷◌, none, some,
}
use mathlib.Core.Option.{some-injective}
use distributed_game_of_life.Simulation.Chunk.{Chunk, new_chunk}
use distributed_game_of_life.Simulation.Chunk.Cells.{cell}
use distributed_game_of_life.Simulation.Registry.{hydrated}
use distributed_game_of_life.Simulation.Registry.Invariant.{rows_in}
use distributed_game_of_life.Simulation.TickAll.Ticks.{grid_of}
use distributed_game_of_life.Storage.{load_chunk, IsFaithful}
use distributed_game_of_life.Server.{System, Event, ticked, received, closed, run}
use distributed_game_of_life.Server.Running.{IsServing, history, deeds, server-refines}
use distributed_game_of_life.Prelude.{◌++◌, if◌then◌else◌}
use distributed_game_of_life.Simulation.Chunk.{rows_to_offsets}
use distributed_game_of_life.Simulation.ChunkMap.{has_key}
use distributed_game_of_life.Simulation.TickAll.Ticks.{Round}
use distributed_game_of_life.Gateway.Pubsub.{Subscribers}
use distributed_game_of_life.Gateway.Pubsub.Watching.{IsTidy, watches}
use distributed_game_of_life.Server.{step}
use distributed_game_of_life.Server.Delivery.{tick-delivers}
use distributed_game_of_life.Server.Messages.{updates}
use distributed_game_of_life.Gateway.Pubsub.Tidy.{last_word}
use distributed_game_of_life.Server.Watchers.{all_calls, watchers-refines}
use distributed_game_of_life.Gateway.Router.{subscribe_to}
use distributed_game_of_life.Tests.Ratelimit.{buckets, after_spending}
use distributed_game_of_life.Tests.Registry.{
  three, active-found, active, active-IsRegistry, near_origin,
}
use distributed_game_of_life.Tests.Storage.{values, nothing_stored}
use distributed_game_of_life.Tests.TickAll.{
  clean, in_order, in_order-IsSchedule, active-HasIds, near_origin-IsId,
}
use distributed_game_of_life.Tests.Router.{spawn, later}

pub nothing_stored-IsFaithful : IsFaithful values nothing_stored
unfolding load_chunk new_chunk
nothing_stored-IsFaithful id c e = ap (λ (d : Chunk). d.id) (sym (some-injective _ c e))

abbrev pub every_write_works : ℕ → ℕ → Bool
every_write_works n client = false

abbrev pub start : System values buckets every_write_works
start = record {
  world = record {
    buckets = after_spending;
    outside = record {
      store = nothing_stored;
      faithful = nothing_stored-IsFaithful;
      writes = [];
      dropped = 0;
    };
    chunks = active;
    subscribers = [];
    sent = [];
  };
  scratches = clean;
}

start-IsServing : IsServing values buckets every_write_works start
unfolding load_chunk new_chunk hydrated
start-IsServing = record {
  registry = active-IsRegistry;
  ids = active-HasIds;
  blank = λ k. refl;
  clean = λ worker. refl;
}

abbrev pub round : Round
round = record { schedule = in_order; worker_of = λ id. 0; fair = in_order-IsSchedule }

abbrev events : List (Event values buckets every_write_works)
events =
    received (λ i. later) "ada" 1 (some (subscribe_to (some (near_origin ∷ []))))
    ∷ received (λ i. later) "ada" 1 (some spawn)
    ∷ ticked round
    ∷ received (λ i. later) "ada" 1 none
    ∷ closed 2
    ∷ []

server-refines_example :
    let after = run values buckets every_write_works events start in
    (cell (rows_in near_origin after.world.chunks) 2 1
      ≡ history
          (deeds values buckets every_write_works events start)
          (grid_of active)
          near_origin
          2
          1)
    × IsServing values buckets every_write_works after
server-refines_example =
    server-refines values buckets every_write_works events start near_origin 2 1
      ((near_origin-IsId, tt), (((omega arith, omega arith), (omega arith, omega arith)), tt))
      start-IsServing near_origin-IsId (omega arith) (omega arith)

abbrev watched : Subscribers
watched = (near_origin, 1 ∷ []) ∷ []

watched-IsTidy : IsTidy watched
unfolding has_key
watched-IsTidy = ((refl, tt), (refl, (refl, tt), tt))

abbrev watched_start : System values buckets every_write_works
watched_start = record start { world = record start.world { subscribers = watched } }

watched_start-IsServing : IsServing values buckets every_write_works watched_start
unfolding load_chunk new_chunk hydrated
watched_start-IsServing = record {
  registry = active-IsRegistry;
  ids = active-HasIds;
  blank = λ k. refl;
  clean = λ worker. refl;
}

tick-delivers_example :
    let after = step values buckets every_write_works (ticked round) watched_start in
    updates 1 near_origin after.world.outside.writes
    ≡ []
      ++ (if watches 1 near_origin watched
          then rows_to_offsets (rows_in near_origin after.world.chunks) ∷ []
          else [])
tick-delivers_example =
    tick-delivers values buckets every_write_works round watched_start 1 near_origin three
      watched_start-IsServing watched-IsTidy active-found

watchers-refines_example :
    let subscribers = (run values buckets every_write_works events start).world.subscribers in
    IsTidy subscribers
    × (watches 1 near_origin subscribers
        ≡ last_word (all_calls values buckets every_write_works events []) 1 near_origin)
watchers-refines_example =
    watchers-refines values buckets every_write_works events start 1 near_origin refl

-- ===== src/Server.antt =====
-- The server of main.go: the registry with Storage and PubSub behind its callbacks, the ticker, and the
-- read loops of gateway/websocket.go that give the clients' messages to the router.
pub mod Running
pub mod Messages
pub mod Delivery
pub mod Watchers
pub mod Startup
pub mod Connections
use distributed_game_of_life.Prelude.{
  ℕ, ◌≡◌, refl, Bool, length, List, [], ◌∷◌, ◌++◌, ◌+◌, Option, none, some,
}
use Prim.Native.String.{String}
use mathlib.Core.Option.{some-injective}
use distributed_game_of_life.Simulation.Chunk.{ChunkId, Chunk}
use distributed_game_of_life.Simulation.Engine.{Counts, no_counts}
use distributed_game_of_life.Simulation.Registry.{Config, Loaded, loaded, nothing, load_error}
use distributed_game_of_life.Simulation.TickAll.{tick_all}
use distributed_game_of_life.Simulation.TickAll.Ticks.{Round}
use distributed_game_of_life.Ratelimit.{Redis}
use distributed_game_of_life.Storage.{
  Backend, save_chunk, load_chunk, load_chunk-IsValid, IsFaithful, save_chunk-IsFaithful,
}
use distributed_game_of_life.Gateway.Pubsub.{
  Subscribers, ChunkStatePayload, unsubscribe_all, has_subscribers, broadcast,
}
use distributed_game_of_life.Gateway.Router.{
  Command, Reply, invalid_format, Moment, World, send, route,
}

-- The Load callback: LoadChunk's chunk or error.
abbrev pub loaded_by : Option Chunk → Loaded
loaded_by none = load_error
loaded_by (some c) = loaded c

pub loaded_by-found : (o : Option Chunk) (c : Chunk) → loaded_by o ≡ loaded c → o ≡ some c
loaded_by-found none c e = absurd (cc e)
loaded_by-found (some d) c e = cc e

module _ (backend : Backend) where
  -- What is behind the registry: the store, whose chunks are under their own keys, the messages that
  -- Broadcast has written so far, and its counter of dropped messages.
  pub record Behind : Type 0 where
    pub store : backend.Store
    pub faithful : IsFaithful backend store
    pub writes : List (ℕ × ChunkStatePayload)
    pub dropped : ℕ

  -- The Persist callback, after SaveChunk has answered.
  unfoldable pub keep_saved :
      (o : Behind) (c : Chunk) (r : Option backend.Store)
      → save_chunk backend o.store c ≡ r
      → Behind
  keep_saved o c none failed = o
  keep_saved o c (some t) saved = record o {
    store = t;
    faithful = save_chunk-IsFaithful backend o.store t c saved o.faithful;
  }

  -- The OnTick callback.
  unfoldable pub show_clients : (ℕ → ℕ → Bool) → Subscribers → Behind → ChunkId → List ℕ → Behind
  unfolding broadcast
  show_clients fails subscribers o id cells =
      let shown = broadcast (fails (length o.writes)) id cells subscribers in
      record o { writes = o.writes ++ shown.writes; dropped = o.dropped + shown.dropped }

  -- The RegistryConfig of main. `fails n client` says whether a write to the client fails that comes after
  -- `n` others.
  abbrev pub registry_config : (ℕ → ℕ → Bool) → Subscribers → Config
  registry_config fails subscribers = record {
    Outside = Behind;
    load = λ o id. loaded_by (load_chunk backend o.store id);
    persist = λ o c. keep_saved o c (save_chunk backend o.store c) refl;
    has_subscribers = λ o id. has_subscribers id subscribers;
    on_tick = show_clients fails subscribers;
    load-id = λ o id c e. o.faithful id c (loaded_by-found (load_chunk backend o.store id) c e);
    load-IsValid = λ o id c e.
        load_chunk-IsValid backend o.store id c
          (loaded_by-found (load_chunk backend o.store id) c e);
  }

  module _ (redis : Redis) (fails : ℕ → ℕ → Bool) where
    -- The state of the server. The messages that `world` has sent are the answers to the last message.
    pub record System : Type 0 where
      pub world : World redis.Store Behind
      pub scratches : ℕ → Counts

    -- The body of the read loop, for a message that json.Unmarshal refuses or makes a command of.
    unfoldable pub serve :
        (ℕ → Moment)
        → String
        → ℕ
        → Option Command
        → World redis.Store Behind
        → World redis.Store Behind
    unfolding route
    serve moments id client none w = send invalid_format w
    serve moments id client (some command) w =
        route redis (registry_config fails w.subscribers) moments id client command w

    -- What can happen next: the ticker fires, a client's message arrives, or its connection drops.
    pub data Event : Type 0 where
      ticked : Round → Event
      received : (ℕ → Moment) → String → ℕ → Option Command → Event
      closed : ℕ → Event

    unfoldable pub step : Event → System → System
    unfolding tick_all serve unsubscribe_all
    step (ticked round) s =
        let w = s.world in
        let ((o, m), scratches) =
          tick_all (registry_config fails w.subscribers) round.schedule round.worker_of
            ((w.outside, w.chunks), s.scratches) in
        record { world = record w { outside = o; chunks = m; sent = [] }; scratches = scratches }
    step (received moments id client message) s = record s {
      world = serve moments id client message (record s.world { sent = [] });
    }
    step (closed client) s = record s {
      world = record s.world {
        subscribers = unsubscribe_all client s.world.subscribers;
        sent = [];
      };
    }

    unfoldable pub run : List Event → System → System
    unfolding step
    run [] s = s
    run (e ∷ es) s = run es (step e s)

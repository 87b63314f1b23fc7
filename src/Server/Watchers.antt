-- ===== src/Server/Watchers.antt =====
-- Who watches which chunk while the server runs.
use distributed_game_of_life.Prelude.{ℕ, ◌≡◌, ap, Bool, List, [], ◌∷◌, none, some}
use distributed_game_of_life.Simulation.Chunk.{ChunkId}
use distributed_game_of_life.Ratelimit.{Redis}
use distributed_game_of_life.Storage.{Backend}
use distributed_game_of_life.Gateway.Pubsub.{unsubscribe_all}
use distributed_game_of_life.Gateway.Pubsub.Watching.{IsTidy, watches}
use distributed_game_of_life.Gateway.Pubsub.Tidy.{disconnected, after, last_word, pubsub-refines}
use distributed_game_of_life.Gateway.Pubsub.Tidy as Tidy
use distributed_game_of_life.Gateway.Router.Subscriptions.{calls, subscribers-route}
use distributed_game_of_life.Server.{
  registry_config, System, Event, ticked, received, closed, serve, step, run,
}

module _ (backend : Backend) (redis : Redis) (fails : ℕ → ℕ → Bool) where
  -- The calls of PubSub up to an event, the last one first.
  abbrev pub calls_by : Event backend redis fails → List Tidy.Event → List Tidy.Event
  calls_by (ticked round) before = before
  calls_by (received moments id client none) before = before
  calls_by (received moments id client (some command)) before = calls client command before
  calls_by (closed client) before = disconnected client ∷ before

  abbrev pub all_calls : List (Event backend redis fails) → List Tidy.Event → List Tidy.Event
  all_calls [] before = before
  all_calls (e ∷ es) before = all_calls es (calls_by e before)

  pub subscribers-step :
      (e : Event backend redis fails) (s : System backend redis fails) (before : List Tidy.Event)
      → s.world.subscribers ≡ after before
      → (step backend redis fails e s).world.subscribers ≡ after (calls_by e before)
  unfolding step serve
  subscribers-step (ticked round) s before same = same
  subscribers-step (received moments id client none) s before same = same
  subscribers-step (received moments id client (some command)) s before same =
      subscribers-route redis (registry_config backend fails s.world.subscribers) moments id client
        command (record s.world { sent = [] }) before same
  subscribers-step (closed client) s before same = ap (unsubscribe_all client) same

  subscribers-run :
      (es : List (Event backend redis fails)) (s : System backend redis fails)
      (before : List Tidy.Event)
      → s.world.subscribers ≡ after before
      → (run backend redis fails es s).world.subscribers ≡ after (all_calls es before)
  unfolding run
  subscribers-run [] s before same = same
  subscribers-run (e ∷ es) s before same =
      subscribers-run es (step backend redis fails e s) (calls_by e before)
        (subscribers-step e s before same)

  -- From a server that nobody watches, after any sequence of ticks, messages and dropped connections, a
  -- client watches a chunk exactly when the last SUBSCRIBE, UNSUBSCRIBE or disconnection that concerns the
  -- client and the chunk says so; each chunk has one set of clients at most, not empty and without
  -- repetition.
  pub watchers-refines :
      (es : List (Event backend redis fails)) (s : System backend redis fails) (c : ℕ) (k : ChunkId)
      → s.world.subscribers ≡ []
      → let subscribers = (run backend redis fails es s).world.subscribers in
        IsTidy subscribers × (watches c k subscribers ≡ last_word (all_calls es []) c k)
  watchers-refines es s c k nobody =
      let pubsub = pubsub-refines (all_calls es []) in
      rw (subscribers-run es s [] nobody) (pubsub.0, pubsub.1 c k)

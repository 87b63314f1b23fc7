-- ===== src/Server/Running.antt =====
-- The world of the running server, against Conway's rules and what its clients are told.
use distributed_game_of_life.Prelude.{
  ℕ, ◌≡◌, ◌<◌, ◌⊎◌, inl, inr, refl, ap, ◌∙◌, arith, Bool, ◌&&◌, ◌||◌, if◌then◌else◌, List, [], ◌∷◌,
  Option, none, some, Bool-cases,
}
use distributed_game_of_life.Prelude.Int.{ℤ}
use Prim.Native.String.{String}
use distributed_game_of_life.Simulation.Chunk.{ChunkId, Chunk}
use distributed_game_of_life.Simulation.Chunk.Cells.{IsValid, cell}
use distributed_game_of_life.Simulation.ChunkMap.{id_eq}
use distributed_game_of_life.Simulation.Engine.Shown.{IsId}
use distributed_game_of_life.Simulation.Registry.{loaded}
use distributed_game_of_life.Simulation.Registry.Invariant.{IsRegistry, rows_in}
use distributed_game_of_life.Simulation.TickAll.Spread.{HasIds}
use distributed_game_of_life.Simulation.TickAll.Run.{AreClean}
use distributed_game_of_life.Simulation.TickAll.Ticks.{
  Round, Grid, generation, grid_of, AreSame, generation-AreSame, StoresBlank, IsStore,
  StoresBlank-IsKept,
}
use distributed_game_of_life.Simulation.TickAll.Generation.{tick_all-IsGeneration}
use distributed_game_of_life.Ratelimit.{Redis}
use distributed_game_of_life.Storage.{Backend, save_chunk, load_chunk, load_chunk-save_chunk}
use distributed_game_of_life.Gateway.Pubsub.{Subscribers}
use distributed_game_of_life.Gateway.Router.{Command, Reply, Moment, route}
use distributed_game_of_life.Gateway.Router.Positions.{painted}
use distributed_game_of_life.Gateway.Router.Quiet.{acked}
use distributed_game_of_life.Gateway.Router.Outcome.{positions, IsDecoded, route-IsOutcome}
use distributed_game_of_life.Server.{
  loaded_by, Behind, keep_saved, show_clients, registry_config, System, serve, Event, ticked,
  received, closed, step, run,
}

-- What an event does to the world: a generation passes, or the cells at some positions come alive.
pub data Deed : Type 0 where
  aged : Deed
  drew : List (ℤ × ℤ) → Deed

abbrev pub change : Deed → Grid → Grid
change aged g = generation g
change (drew ps) g = λ id x y. painted ps id x y || g id x y

abbrev pub history : List Deed → Grid → Grid
history [] g = g
history (d ∷ ds) g = history ds (change d g)

change-AreSame : (d : Deed) (g h : Grid) → AreSame g h → AreSame (change d g) (change d h)
change-AreSame aged g h same = generation-AreSame g h same
change-AreSame (drew ps) g h same =
    λ id x y hid hx hy. ap (◌||◌ (painted ps id x y)) (same id x y hid hx hy)

history-AreSame :
    (ds : List Deed) (g h : Grid) → AreSame g h → AreSame (history ds g) (history ds h)
history-AreSame [] g h same = same
history-AreSame (d ∷ ds) g h same =
    history-AreSame ds (change d g) (change d h) (change-AreSame d g h same)

-- A message draws what it asks for if it is acknowledged.
abbrev drawn_by : Option Command → List Reply → List (ℤ × ℤ)
drawn_by none sent = []
drawn_by (some command) sent = if acked sent then positions command else []

painted-if :
    (b : Bool) (ps : List (ℤ × ℤ)) (id : ChunkId) (x y : ℕ)
    → (b && painted ps id x y) ≡ painted (if b then ps else []) id x y
painted-if b ps id x y = ground arith

module _ (backend : Backend) where
  load-keep_saved :
      (o : Behind backend) (c : Chunk) (k : ChunkId) (r : Option backend.Store)
      (e : save_chunk backend o.store c ≡ r)
      → IsValid c.rows
      → (loaded_by (load_chunk backend (keep_saved backend o c r e).store k) ≡ loaded c)
        ⊎ (loaded_by (load_chunk backend (keep_saved backend o c r e).store k)
            ≡ loaded_by (load_chunk backend o.store k))
  unfolding keep_saved
  load-keep_saved o c k none e v = inr refl
  load-keep_saved o c k (some t) e v =
      let kept = load_chunk-save_chunk backend o.store t c k v e in
      elim (Bool-cases (id_eq c.id k)) [
        | inl own ↦ inl (rw (kept, own) refl)
        | inr other ↦ inr (rw (kept, other) refl)
      ]

  -- Redis behind the callbacks is a store.
  registry_config-IsStore :
      (fails : ℕ → ℕ → Bool) (subscribers : Subscribers)
      → IsStore (registry_config backend fails subscribers)
  unfolding show_clients
  registry_config-IsStore fails subscribers = record {
    load-on_tick = λ o id k cells. refl;
    load-persist = λ o c k v. load-keep_saved o c k (save_chunk backend o.store c) refl v;
  }

  module _ (redis : Redis) (fails : ℕ → ℕ → Bool) where
    -- The state between two events.
    pub record IsServing (s : System backend redis fails) : Type 0 where
      pub registry : IsRegistry s.world.chunks
      pub ids : HasIds s.world.chunks
      pub blank : StoresBlank (registry_config backend fails s.world.subscribers) s.world.outside
      pub clean : AreClean s.scratches

    -- What an event does, by the answer to its message.
    abbrev pub deed : Event backend redis fails → List Reply → Deed
    deed (ticked round) sent = aged
    deed (received moments id client message) sent = drew (drawn_by message sent)
    deed (closed client) sent = drew []

    abbrev pub deeds : List (Event backend redis fails) → System backend redis fails → List Deed
    deeds [] s = []
    deeds (e ∷ es) s =
        let after = step backend redis fails e s in deed e after.world.sent ∷ deeds es after

    -- The decoder makes 64-bit integers.
    abbrev pub AreDecoded : List (Event backend redis fails) → Type 0
    AreDecoded [] = Unit {0}
    AreDecoded (received moments id client (some command) ∷ es) = IsDecoded command × AreDecoded es
    AreDecoded (e ∷ es) = AreDecoded es

    -- One event keeps the server well formed and does its deed.
    record IsStep (d : Deed) (s s' : System backend redis fails) : Type 0 where
      serving : IsServing s'
      cells : AreSame (grid_of s'.world.chunks) (change d (grid_of s.world.chunks))

    ticked-IsStep :
        (round : Round) (s : System backend redis fails)
        → IsServing s
        → IsStep aged s (step backend redis fails (ticked round) s)
    unfolding step
    ticked-IsStep round s ok =
        let config = registry_config backend fails s.world.subscribers in
        let next =
          tick_all-IsGeneration config (StoresBlank config)
            (StoresBlank-IsKept config (registry_config-IsStore fails s.world.subscribers))
            round.schedule round.worker_of s.world.outside s.world.chunks s.scratches round.fair
            (λ k absent. ok.blank k) ok.registry ok.ids ok.clean ok.blank in
        record {
          serving = record {
            registry = next.registry;
            ids = next.ids;
            blank = next.outside;
            clean = next.clean;
          };
          cells = next.cells;
        }

    quiet-IsStep :
        (s s' : System backend redis fails)
        → IsServing s
        → s'.world.chunks ≡ s.world.chunks
        → s'.world.outside ≡ s.world.outside
        → s'.scratches ≡ s.scratches
        → IsStep (drew []) s s'
    quiet-IsStep s s' ok chunks outside scratches = record {
      serving = record {
        registry = rw chunks (ok.registry);
        ids = rw chunks (ok.ids);
        blank = rw outside (ok.blank);
        clean = rw scratches (ok.clean);
      };
      cells = λ id x y hid hx hy. rw chunks refl;
    }

    received-IsStep :
        (moments : ℕ → Moment) (id : String) (client : ℕ) (command : Command)
        (s : System backend redis fails)
        → IsDecoded command
        → IsServing s
        → let after = step backend redis fails (received moments id client (some command)) s in
          IsStep (drew (drawn_by (some command) after.world.sent)) s after
    unfolding step serve
    received-IsStep moments id client command s decoded ok =
        let w = record s.world { sent = [] } in
        let config = registry_config backend fails s.world.subscribers in
        let out =
          route-IsOutcome redis config w refl ok.blank ok.registry ok.ids moments id client command
            decoded in
        let sent = (route redis config moments id client command w).sent in
        record {
          serving = record {
            registry = out.registry;
            ids = out.ids;
            blank = rw (out.outside) (ok.blank);
            clean = ok.clean;
          };
          cells = λ j x y hid hx hy.
              out.cells j x y hx hy
              ∙ ap (λ b. b || cell (rows_in j s.world.chunks) x y)
                  (painted-if (acked sent) (positions command) j x y);
        }

    -- The server is well formed after the events, and has their history.
    pub record IsRunning (ds : List Deed) (s s' : System backend redis fails) : Type 0 where
      pub serving : IsServing s'
      pub cells : AreSame (grid_of s'.world.chunks) (history ds (grid_of s.world.chunks))

    then-IsRunning :
        (d : Deed) (ds : List Deed) (s s1 s2 : System backend redis fails)
        → IsStep d s s1
        → IsRunning ds s1 s2
        → IsRunning (d ∷ ds) s s2
    then-IsRunning d ds s s1 s2 first rest = record {
      serving = rest.serving;
      cells = λ id x y hid hx hy.
          rest.cells id x y hid hx hy
          ∙ history-AreSame ds (grid_of s1.world.chunks) (change d (grid_of s.world.chunks))
              first.cells id x y hid hx hy;
    }

    run-IsRunning :
        (es : List (Event backend redis fails)) (s : System backend redis fails)
        → AreDecoded es
        → IsServing s
        → IsRunning (deeds es s) s (run backend redis fails es s)
    unfolding run step serve
    run-IsRunning [] s decoded ok = record { serving = ok; cells = λ id x y hid hx hy. refl }
    run-IsRunning (ticked round ∷ es) s decoded ok =
        let first = ticked-IsStep round s ok in
        then-IsRunning aged _ s _ _ first (run-IsRunning es _ decoded first.serving)
    run-IsRunning (received moments id client none ∷ es) s decoded ok =
        let first =
          quiet-IsStep s (step backend redis fails (received moments id client none) s) ok refl refl
            refl in
        then-IsRunning (drew []) _ s _ _ first (run-IsRunning es _ decoded first.serving)
    run-IsRunning (received moments id client (some command) ∷ es) s decoded ok =
        let first = received-IsStep moments id client command s decoded.0 ok in
        then-IsRunning _ _ s _ _ first (run-IsRunning es _ decoded.1 first.serving)
    run-IsRunning (closed client ∷ es) s decoded ok =
        let first = quiet-IsStep s (step backend redis fails (closed client) s) ok refl refl refl in
        then-IsRunning (drew []) _ s _ _ first (run-IsRunning es _ decoded first.serving)

    -- After any sequence of ticks, messages of clients and dropped connections, the server is well
    -- formed, and the cells of the chunks with 64-bit IDs are those that the history of the events
    -- makes of the cells before: each tick is one generation of Conway's rules, each message that is
    -- acknowledged adds the cells that it asks for, and nothing else changes. The server must be well
    -- formed before, over a storage of blank chunks, and the numbers in the commands 64-bit integers.
    pub server-refines :
        (es : List (Event backend redis fails)) (s : System backend redis fails) (id : ChunkId)
        (x y : ℕ)
        → AreDecoded es
        → IsServing s
        → IsId id
        → x < 64
        → y < 64
        → let after = run backend redis fails es s in
          (cell (rows_in id after.world.chunks) x y
            ≡ history (deeds es s) (grid_of s.world.chunks) id x y)
          × IsServing after
    server-refines es s id x y decoded ok hid hx hy =
        let running = run-IsRunning es s decoded ok in
        (running.cells id x y hid hx hy, running.serving)

-- ===== src/Server/Delivery.antt =====
-- What a tick sends to the clients.
use distributed_game_of_life.Prelude.{
  ℕ, length, ◌≡◌, refl, sym, ap, ◌∙◌, Bool, true, ◌+◌, leb, if◌then◌else◌, List, [], ◌∷◌, ◌++◌,
  Option, none, some, Bool-cases, inl, inr,
}
use mathlib.Core.List.{append-nil}
use distributed_game_of_life.Simulation.Chunk.{ChunkId, Chunk, rows_to_offsets, snapshot, set_rows}
use distributed_game_of_life.Simulation.ChunkMap.{
  id_eq, id_eq_iff, find, find_first, find_absent, DistinctKeys,
}
use distributed_game_of_life.Simulation.Engine.{no_counts, tick_bitset}
use distributed_game_of_life.Simulation.Registry.{
  ChunkState, Chunks, Config, hibernate, settle, process_job,
}
use distributed_game_of_life.Simulation.Registry.Invariant.{IsRegistry, rows_in}
use distributed_game_of_life.Simulation.Registry.Lifetime.{IsKept, rests, ticked}
use distributed_game_of_life.Simulation.TickAll.{
  Work, Pool, run_job, run_jobs, distributed, tick_jobs, tick_all,
}
use distributed_game_of_life.Simulation.TickAll.Spread.{HasIds}
use distributed_game_of_life.Simulation.TickAll.Run.{
  AreReady, AreClean, next_of, rest_AreReady, run_job_lem, run_jobs_lem,
}
use distributed_game_of_life.Storage.{Backend, save_chunk}
use distributed_game_of_life.Gateway.Pubsub.{Subscribers, broadcast}
use distributed_game_of_life.Gateway.Pubsub.Watching.{IsTidy, watches}
use distributed_game_of_life.Server.{
  Behind, keep_saved, show_clients, registry_config, System, Event, step,
}
use distributed_game_of_life.Server.Running.{IsServing}
use distributed_game_of_life.Ratelimit.{Redis}
use distributed_game_of_life.Simulation.TickAll.{snapshot_rows, or_rows, halos_of}
use distributed_game_of_life.Simulation.TickAll.Growth.{LoadsBlank, IsSpread, distributed-IsSpread}
use distributed_game_of_life.Simulation.TickAll.Orders.{find-jobs}
use distributed_game_of_life.Simulation.TickAll.Generation.{
  tick_jobs-AreReady, tick_jobs-DistinctKeys, reordered,
}
use distributed_game_of_life.Simulation.TickAll.Ticks.{Round}
use distributed_game_of_life.Simulation.Engine.{Counts}
use distributed_game_of_life.Server.Messages.{updates-broadcast, updates-append, updates}

-- What a job sends about the chunk `k` to a client.
abbrev pub news : Bool → ChunkId → Option Work → List (List ℕ)
news watching k none = []
news watching k (some work) = if watching then rows_to_offsets (next_of k work) ∷ [] else []

module _ (backend : Backend) (fails : ℕ → ℕ → Bool) (subscribers : Subscribers) where
  abbrev config : Config
  config = registry_config backend fails subscribers

  writes-keep_saved :
      (o : Behind backend) (c : Chunk) (r : Option backend.Store)
      (e : save_chunk backend o.store c ≡ r)
      → (keep_saved backend o c r e).writes ≡ o.writes
  unfolding keep_saved
  writes-keep_saved o c none e = refl
  writes-keep_saved o c (some t) e = refl

  -- Hibernation sends nothing.
  writes-settle :
      (key : ChunkId) (state : ChunkState) (o : Behind backend) (m : Chunks)
      → (settle config key state (o, m)).0.writes ≡ o.writes
  unfolding settle hibernate
  writes-settle key state o m = elim (Bool-cases (rests config o state.chunk)) [
    | inl resting ↦ elim (Bool-cases (leb 100 (state.idle_ticks + 1))) [
      | inl due ↦
          rw (resting, due)
            (writes-keep_saved o state.chunk (save_chunk backend o.store state.chunk) refl)
      | inr early ↦ rw (resting, early) refl
    ]
    | inr busy ↦ rw busy refl
  ]

  module _ (tidy : IsTidy subscribers) (c : ℕ) (k : ChunkId) where
    updates-show_clients :
        (o : Behind backend) (id : ChunkId) (cells : List ℕ)
        → updates c k (show_clients backend fails subscribers o id cells).writes
          ≡ updates c k o.writes
            ++ (if id_eq id k then (if watches c id subscribers then cells ∷ [] else []) else [])
    unfolding show_clients
    updates-show_clients o id cells =
        updates-append c k o.writes
          (broadcast (fails (length o.writes)) id cells subscribers).writes
        ∙ ap (◌++◌ (updates c k o.writes))
            (updates-broadcast (fails (length o.writes)) id k cells subscribers c tidy)

    updates-process_job :
        (work : Work) (state : ChunkState) (o : Behind backend) (m : Chunks)
        → updates c k
            (process_job config state.chunk.id state work.rows work.halos no_counts
              (o, m)).0.0.writes
          ≡ updates c k o.writes
            ++ (if id_eq state.chunk.id k
                then news (watches c state.chunk.id subscribers) state.chunk.id (some work)
                else [])
    unfolding process_job set_rows snapshot tick_bitset
    updates-process_job work state o m =
        let after = ticked config state work.rows work.halos no_counts in
        ap (updates c k) (
          writes-settle state.chunk.id (record state { chunk = after })
            (show_clients backend fails subscribers o state.chunk.id (snapshot after)) m)
        ∙ updates-show_clients o state.chunk.id (snapshot after)

    updates-run_job :
        (worker : ℕ) (key : ChunkId) (work : Work) (state : ChunkState) (p : Pool config)
        → find key p.0.1 ≡ some state
        → state.chunk.id ≡ key
        → AreClean p.1
        → updates c k (run_job config worker key work p).0.0.writes
          ≡ updates c k p.0.0.writes
            ++ (if id_eq key k then news (watches c key subscribers) key (some work) else [])
    unfolding run_job
    updates-run_job worker key work state p found same clean =
        rw (found, clean worker, sym same) (updates-process_job work state p.0.0 p.0.1)

    own_news :
        (key : ChunkId) (work : Work)
        → id_eq key k ≡ true
        → (if id_eq key k then news (watches c key subscribers) key (some work) else [])
          ≡ news (watches c k subscribers) k (some work)
    own_news key work own = rw (own, (id_eq_iff key k).0 own) refl

    updates-run_jobs :
        (worker_of : ChunkId → ℕ) (js : List (ChunkId × Work)) (p : Pool config)
        → DistinctKeys js
        → AreReady js p.0.1
        → IsRegistry p.0.1
        → HasIds p.0.1
        → AreClean p.1
        → updates c k (run_jobs config worker_of js p).0.0.writes
          ≡ updates c k p.0.0.writes ++ news (watches c k subscribers) k (find k js)
    unfolding run_jobs find
    updates-run_jobs worker_of [] p d ready r ids clean =
        sym (append-nil (updates c k p.0.0.writes))
    updates-run_jobs worker_of ((key, work) ∷ js) p d ready r ids clean =
        let anything = λ (o : Behind backend). Unit {0} in
        let kept : IsKept config anything = (λ o id cells h. tt, λ o c e h. tt) in
        let first = ready key work (find_first key work js) in
        let p1 = run_job config (worker_of key) key work p in
        let run =
          run_job_lem config anything kept (worker_of key) key work first.1.0 p first.0 first.1.1 r
            ids clean tt in
        let here =
          updates-run_job (worker_of key) key work first.1.0 p first.1.1
            (r.states key first.1.0 first.1.1).same_id clean in
        let rest =
          updates-run_jobs worker_of js p1 d.1
            (rest_AreReady config anything kept key work js p.0.1 p1 d ready run) run.registry
            run.ids run.clean in
        elim (Bool-cases (id_eq key k)) [
          | inl own ↦
              let gone = find_absent k js (rw ((id_eq_iff key k).0 own) at d.0) in
              let nothing_later = rw gone at rest in
              rw own (
                nothing_later
                ∙ append-nil (updates c k p1.0.0.writes)
                ∙ here
                ∙ ap (◌++◌ (updates c k p.0.0.writes)) (own_news key work own))
          | inr other ↦
              let sent = rw other at here in
              rw other (
                rest
                ∙ ap (λ sent. sent ++ news (watches c k subscribers) k (find k js))
                    (sent ∙ append-nil (updates c k p.0.0.writes)))
        ]

  -- A chunk that is active when the tick begins has a job in it.
  has_job :
      (o : Behind backend) (m : Chunks) (k : ChunkId) (state : ChunkState)
      → IsSpread config m (distributed config o m)
      → find k m ≡ some state
      → (work : Work) × (find k (tick_jobs config o m) ≡ some work)
  unfolding tick_jobs
  has_job o m k state sp there =
      let given = (distributed config o m).1 in
      let listed = find-jobs (snapshot_rows m) given k (distributed config o m).0 in
      (
        record {
          rows = or_rows state.chunk.rows (find k (snapshot_rows m));
          halos = halos_of k given;
        },
        listed ∙ rw (sp.grown.keeps k state there) refl,
      )

  updates-tick_all :
      (round : Round) (o : Behind backend) (m : Chunks) (scratches : ℕ → Counts) (c : ℕ)
      (k : ChunkId) (state : ChunkState)
      → IsTidy subscribers
      → LoadsBlank config o m
      → IsRegistry m
      → HasIds m
      → AreClean scratches
      → find k m ≡ some state
      → let after = tick_all config round.schedule round.worker_of ((o, m), scratches) in
        updates c k after.0.0.writes
        ≡ updates c k o.writes
          ++ (if watches c k subscribers then rows_to_offsets (rows_in k after.0.1) ∷ [] else [])
  unfolding tick_all
  updates-tick_all round o m scratches c k state tidy blank r ids clean there =
      let anything = λ (o : Behind backend). Unit {0} in
      let kept : IsKept config anything = (λ o id cells h. tt, λ o c e h. tt) in
      let sp = distributed-IsSpread config o m blank r ids in
      let js = tick_jobs config o m in
      let m' = (distributed config o m).0 in
      let order = round.fair js (tick_jobs-DistinctKeys config o m sp) in
      let ready =
        reordered config (round.schedule js) js m' order (tick_jobs-AreReady config o m r sp) in
      let done =
        run_jobs_lem config anything kept round.worker_of (round.schedule js) ((o, m'), scratches)
          order.distinct ready sp.grown.registry sp.grown.ids clean tt in
      let job = has_job o m k state sp there in
      let found = order.same k ∙ job.1 in
      updates-run_jobs tidy c k round.worker_of (round.schedule js) ((o, m'), scratches)
        order.distinct ready sp.grown.registry sp.grown.ids clean
      ∙ rw (done.rows k, found) refl

module _ (backend : Backend) (redis : Redis) (fails : ℕ → ℕ → Bool) where
  -- In a tick of a well-formed server with a tidy map of subscribers, over a storage of blank chunks,
  -- each client that watches a chunk that was active is written one message about it, with the cells
  -- that the chunk has after the tick, whether or not the write fails; a client that does not watch the
  -- chunk is written none.
  pub tick-delivers :
      (round : Round) (s : System backend redis fails) (c : ℕ) (k : ChunkId) (state : ChunkState)
      → IsServing backend redis fails s
      → IsTidy s.world.subscribers
      → find k s.world.chunks ≡ some state
      → let after = step backend redis fails (Event.ticked round) s in
        updates c k after.world.outside.writes
        ≡ updates c k s.world.outside.writes
          ++ (if watches c k s.world.subscribers
              then rows_to_offsets (rows_in k after.world.chunks) ∷ []
              else [])
  unfolding step
  tick-delivers round s c k state ok tidy there =
      updates-tick_all backend fails s.world.subscribers round s.world.outside s.world.chunks
        s.scratches c k state tidy (λ j absent. ok.blank j) ok.registry ok.ids ok.clean there

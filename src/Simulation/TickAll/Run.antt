-- ===== src/Simulation/TickAll/Run.antt =====
-- The jobs of a tick, in any order: each chunk that has a job gets its next generation.
use distributed_game_of_life.Prelude.{
  ℕ, ◌≡◌, inl, inr, refl, sym, ◌∙◌, false, ◌==◌, if◌then◌else◌, List, [], ◌∷◌, Option, none, some,
  Bool-cases,
}
use mathlib.Core.Option.{some-injective}
use distributed_game_of_life.Simulation.Chunk.{snapshot, ChunkId, Rows, set_rows}
use distributed_game_of_life.Simulation.Chunk.Cells.{IsValid}
use distributed_game_of_life.Simulation.ChunkMap.{
  id_eq, id_eq_iff, find, find_first, find_later, find_absent, DistinctKeys,
}
use distributed_game_of_life.Simulation.Engine.{Counts, no_counts, tick_bitset}
use distributed_game_of_life.Simulation.Engine.Shown.{IsId, AreHalos}
use distributed_game_of_life.Simulation.Engine.Tick.{tick_bitset_lem}
use distributed_game_of_life.Simulation.Registry.{ChunkState, Chunks, Config}
use distributed_game_of_life.Simulation.Registry.Invariant.{IsRegistry, rows_in}
use distributed_game_of_life.Simulation.Registry.Jobs.{process_job-rows_in}
use distributed_game_of_life.Simulation.Registry.Lifetime.{
  ticked, left_by, find-process_job, IsKept, outside-process_job,
}
use distributed_game_of_life.Simulation.TickAll.{Work, Pool, run_found, run_job, run_jobs}
use distributed_game_of_life.Simulation.TickAll.Spread.{HasIds}

-- A job that can be run: valid rows and halos for an ID.
pub record IsRunnable (key : ChunkId) (work : Work) : Type 0 where
  pub hid : IsId key
  pub valid : IsValid work.rows
  pub halos : AreHalos key work.halos
  pub distinct : DistinctKeys work.halos

-- Jobs that can be run, of active chunks.
abbrev pub AreReady : List (ChunkId × Work) → Chunks → Type 0
AreReady js m =
    (k : ChunkId) (work : Work)
    → find k js ≡ some work
    → IsRunnable k work × ((state : ChunkState) × (find k m ≡ some state))

-- The workers' buffers are zeroed.
abbrev pub AreClean : (ℕ → Counts) → Type 0
AreClean scratches = (worker : ℕ) → scratches worker ≡ no_counts

abbrev pub next_of : ChunkId → Work → Rows
next_of key work = (tick_bitset key work.rows work.halos no_counts).0

-- A chunk's rows after the jobs: those that its job makes, if it has one.
abbrev pub rows_after : ChunkId → Option Work → Rows → Rows
rows_after k none before = before
rows_after k (some work) before = next_of k work

module _ (config : Config) (Holds : config.Outside → Type 0) (kept : IsKept config Holds) where
  open config use {Outside}

  -- The entry of the chunk is what its job leaves.
  abbrev pub IsLeft : ChunkId → Work → ChunkState → Pool config → Type 0
  IsLeft key work state p =
      (o : Outside) × (find key p.0.1
        ≡ left_by config o (set_rows state.chunk (next_of key work)) state.idle_ticks)

  pub record IsRun (key : ChunkId) (work : Work) (m : Chunks) (p : Pool config) : Type 0 where
    pub registry : IsRegistry p.0.1
    pub ids : HasIds p.0.1
    pub clean : AreClean p.1
    pub rows :
        (j : ChunkId) → rows_in j p.0.1 ≡ (if id_eq key j then next_of key work else rows_in j m)
    pub outside : Holds p.0.0
    pub others : (j : ChunkId) → id_eq key j ≡ false → find j p.0.1 ≡ find j m
    pub entry : (state : ChunkState) → find key m ≡ some state → IsLeft key work state p

  run_found_lem :
      (worker : ℕ) (key : ChunkId) (work : Work) (state : ChunkState) (o : Outside) (m : Chunks)
      (scratches : ℕ → Counts)
      → IsRunnable key work
      → find key m ≡ some state
      → IsRegistry m
      → HasIds m
      → AreClean scratches
      → Holds o
      → IsRun key work m (run_found config worker key work (some state) ((o, m), scratches))
  unfolding set_rows
  run_found_lem worker key work state o m scratches w found r ids clean holds =
      let job = λ (j : ChunkId).
        process_job-rows_in config key j state work.rows work.halos o m w.hid w.valid w.halos
          w.distinct r found in
      let same = (r.states key state found).same_id in
      let entry = λ (j : ChunkId).
        find-process_job config key j state work.rows work.halos no_counts o m same in
      let made : IsValid (tick_bitset state.chunk.id work.rows work.halos no_counts).0 =
        rw same (tick_bitset_lem key work.rows work.halos w.hid w.valid w.halos w.distinct).0 in
      rw (clean worker) (record {
        registry = (job key).0;
        ids = λ k st e. elim (Bool-cases (id_eq key k)) [
          | inl own ↦ rw (sym ((id_eq_iff key k).0 own)) w.hid
          | inr other ↦ ids k st (rw (entry k, other) at e)
        ];
        clean = λ j. elim (Bool-cases (worker == j)) [
          | inl own ↦ rw own (job key).3
          | inr other ↦ rw other (clean j)
        ];
        rows = λ j. (job j).1;
        outside =
            outside-process_job config Holds key state work.rows work.halos no_counts o m kept made
              holds;
        others = λ j other. entry j ∙ rw other refl;
        entry = λ st there.
            let it = some-injective state st (sym found ∙ there) in
            (
              config.on_tick o state.chunk.id
                  (snapshot (ticked config state work.rows work.halos no_counts)),
              entry key ∙ rw ((id_eq_iff key key).1 refl, sym it, same) refl,
            );
      })

  pub run_job_lem :
      (worker : ℕ) (key : ChunkId) (work : Work) (state : ChunkState) (p : Pool config)
      → IsRunnable key work
      → find key p.0.1 ≡ some state
      → IsRegistry p.0.1
      → HasIds p.0.1
      → AreClean p.1
      → Holds p.0.0
      → IsRun key work p.0.1 (run_job config worker key work p)
  unfolding run_job
  run_job_lem worker key work state p w found r ids clean holds =
      rw found (run_found_lem worker key work state p.0.0 p.0.1 p.1 w found r ids clean holds)

  pub record AreDone (js : List (ChunkId × Work)) (m : Chunks) (p : Pool config) : Type 0 where
    pub registry : IsRegistry p.0.1
    pub ids : HasIds p.0.1
    pub clean : AreClean p.1
    pub outside : Holds p.0.0
    pub rows : (k : ChunkId) → rows_in k p.0.1 ≡ rows_after k (find k js) (rows_in k m)
    pub others : (k : ChunkId) → find k js ≡ none → find k p.0.1 ≡ find k m
    pub entries :
        (k : ChunkId) (work : Work) (state : ChunkState)
        → find k js ≡ some work
        → find k m ≡ some state
        → IsLeft k work state p

  pub rest_AreReady :
      (key : ChunkId) (work : Work) (js : List (ChunkId × Work)) (m : Chunks) (p : Pool config)
      → DistinctKeys ((key, work) ∷ js)
      → AreReady ((key, work) ∷ js) m
      → IsRun key work m p
      → AreReady js p.0.1
  rest_AreReady key work js m p d ready run k other e =
      let later = ready k other (find_later k key work other js d e) in
      let apart : id_eq key k ≡ false = elim (Bool-cases (id_eq key k)) [
        | inl same ↦
            let gone = find_absent k js (rw ((id_eq_iff key k).0 same) at d.0) in
            absurd (cc (sym gone ∙ e))
        | inr other_key ↦ other_key
      ] in
      (later.0, (later.1.0, run.others k apart ∙ later.1.1))

  -- Jobs of distinct active chunks, run in the order of the list: each of their chunks gets its next
  -- generation, and no other chunk changes.
  pub run_jobs_lem :
      (worker_of : ChunkId → ℕ) (js : List (ChunkId × Work)) (p : Pool config)
      → DistinctKeys js
      → AreReady js p.0.1
      → IsRegistry p.0.1
      → HasIds p.0.1
      → AreClean p.1
      → Holds p.0.0
      → AreDone js p.0.1 (run_jobs config worker_of js p)
  unfolding run_jobs find
  run_jobs_lem worker_of [] p d ready r ids clean holds = record {
    registry = r;
    ids = ids;
    clean = clean;
    outside = holds;
    rows = λ k. refl;
    others = λ k absent. refl;
    entries = λ k work state listed there. absurd (cc listed);
  }
  run_jobs_lem worker_of ((key, work) ∷ js) p d ready r ids clean holds =
      let first = ready key work (find_first key work js) in
      let p1 = run_job config (worker_of key) key work p in
      let run =
        run_job_lem (worker_of key) key work first.1.0 p first.0 first.1.1 r ids clean holds in
      let rest =
        run_jobs_lem worker_of js p1 d.1 (rest_AreReady key work js p.0.1 p1 d ready run)
          run.registry run.ids run.clean run.outside in
      record {
        registry = rest.registry;
        ids = rest.ids;
        clean = rest.clean;
        outside = rest.outside;
        rows = λ k. elim (Bool-cases (id_eq key k)) [
          | inl same ↦
              let gone = find_absent k js (rw ((id_eq_iff key k).0 same) at d.0) in
              rest.rows k ∙ rw (gone, run.rows k, same, (id_eq_iff key k).0 same) refl
          | inr other ↦ rest.rows k ∙ rw (run.rows k, other) refl
        ];
        others = λ k absent. elim (Bool-cases (id_eq key k)) [
          | inl same ↦ absurd (cc (rw same at absent))
          | inr other ↦ rest.others k (rw other at absent) ∙ run.others k other
        ];
        entries = λ k job state listed there. elim (Bool-cases (id_eq key k)) [
          | inl same ↦
              let own = (id_eq_iff key k).0 same in
              let it : work ≡ job = some-injective work job (rw same at listed) in
              let left = run.entry state (rw (sym own) at there) in
              let gone = find_absent key js d.0 in
              rw (sym own, sym it) (left.0, rest.others key gone ∙ left.1)
          | inr other ↦ rest.entries k job state (rw other at listed) (run.others k other ∙ there)
        ];
      }

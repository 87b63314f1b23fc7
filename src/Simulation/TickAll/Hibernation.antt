-- ===== src/Simulation/TickAll/Hibernation.antt =====
-- The chunks of a dead world that nobody watches hibernate.
use distributed_game_of_life.Prelude.{
  ℕ, suc, ◌+◌, ◌≡◌, ◌≤◌, inl, inr, refl, sym, ap, ◌∙◌, arith, true, false, ◌==◌, leb, one_if,
  if◌then◌else◌, length, ≡→==, List, [], ◌∷◌, Option, none, some, Bool-cases, Option-cases,
}
use mathlib.Core.Option.{some-injective}
use distributed_game_of_life.Simulation.Chunk.{ChunkId, no_rows, Chunk, pop_count, set_rows}
use distributed_game_of_life.Simulation.Chunk.Cells.{no_rows-IsValid, cell_ext, cell-no_rows}
use distributed_game_of_life.Simulation.Chunk.Population.{pop_count-eq-zero_iff}
use distributed_game_of_life.Simulation.ChunkMap.{find, find_first, find_later, DistinctKeys}
use distributed_game_of_life.Simulation.Engine.{Counts, Halos}
use distributed_game_of_life.Simulation.Engine.Shown.{IsId, inner, shown}
use distributed_game_of_life.Simulation.Engine.Tick.{tick_bitset_lem}
use distributed_game_of_life.Simulation.Registry.{ChunkState, Chunks, Config}
use distributed_game_of_life.Simulation.Registry.Invariant.{IsRegistry}
use distributed_game_of_life.Simulation.Registry.Lifetime.{left_by}
use distributed_game_of_life.Simulation.TickAll.{
  Work, Pool, snapshot_rows, all_zero, halos_of, distribute, distributed, run_jobs, tick_jobs,
  tick_all,
}
use distributed_game_of_life.Simulation.TickAll.Given.{find-snapshot_rows}
use distributed_game_of_life.Simulation.TickAll.Spread.{HasIds}
use distributed_game_of_life.Simulation.TickAll.Run.{AreReady, AreClean, next_of, run_jobs_lem}
use distributed_game_of_life.Simulation.TickAll.Orders.{
  IsSchedule, around_none, find-jobs, jobs-DistinctKeys,
}
use distributed_game_of_life.Simulation.TickAll.Generation.{reordered}
use distributed_game_of_life.Simulation.TickAll.Ticks.{Round, ticks}

-- No active chunk has a live cell.
abbrev pub AreBlank : Chunks → Type 0
AreBlank m = (k : ChunkId) (state : ChunkState) → find k m ≡ some state → state.chunk.rows ≡ no_rows

-- Every active chunk has been idle for `n` ticks.
abbrev pub AreIdle : ℕ → Chunks → Type 0
AreIdle n m = (k : ChunkId) (state : ChunkState) → find k m ≡ some state → n ≤ state.idle_ticks

none_later : (n : ℕ) → 0 + n ≡ n
none_later n = omega arith

one_later : (n l : ℕ) → suc l + n ≡ l + suc n
one_later n l = omega arith

abbrev AllBlank : Halos → Type 0
AllBlank [] = Unit {0}
AllBlank ((id, rows) ∷ entries) = (rows ≡ no_rows) × AllBlank entries

snapshot_rows-AllBlank : (m : Chunks) → DistinctKeys m → AreBlank m → AllBlank (snapshot_rows m)
unfolding snapshot_rows
snapshot_rows-AllBlank [] d blank = tt
snapshot_rows-AllBlank ((id, state) ∷ m) d blank = (
  blank id state (find_first id state m),
  snapshot_rows-AllBlank m d.1 (λ k st e. blank k st (find_later k id state st m d e)),
)

-- The job of a blank chunk among blank chunks.
abbrev blank_work : Work
blank_work = record { rows = no_rows; halos = [] }

abbrev blank_job : Option ChunkState → Option Work
blank_job none = none
blank_job (some state) = some blank_work

next_of-blank_work : (k : ChunkId) → IsId k → next_of k blank_work ≡ no_rows
unfolding find
next_of-blank_work k hid =
    let made = tick_bitset_lem k no_rows [] hid no_rows-IsValid tt tt in
    cell_ext (next_of k blank_work) no_rows made.0 no_rows-IsValid (λ x y hx hy.
      let lonely =
        around_none (λ qx qy. one_if (shown k no_rows [] qx qy)) x y hx hy
          (λ qx qy lx ly. rw (cell-no_rows (inner qx) (inner qy)) (ground arith)) in
      made.1 x y hx hy ∙ rw (lonely, cell-no_rows x y) refl)

module _ (config : Config) where
  open config use {Outside, has_subscribers}

  -- A blank snapshot gives no halos, and wakes no chunk.
  distribute-blank :
      (o : Outside) (entries : Halos) (s : _) → AllBlank entries → distribute config o entries s ≡ s
  unfolding distribute all_zero
  distribute-blank o [] s blank = refl
  distribute-blank o ((id, rows) ∷ entries) s blank =
      rw (blank.0) (distribute-blank o entries s blank.1)

  distributed-blank :
      (o : Outside) (m : Chunks) → IsRegistry m → AreBlank m → distributed config o m ≡ (m, [])
  unfolding distributed
  distributed-blank o m r blank =
      distribute-blank o (snapshot_rows m) (m, []) (snapshot_rows-AllBlank m r.distinct blank)

  find-tick_jobs :
      (o : Outside) (m : Chunks) (k : ChunkId)
      → IsRegistry m
      → AreBlank m
      → find k (tick_jobs config o m) ≡ blank_job (find k m)
  unfolding tick_jobs halos_of find
  find-tick_jobs o m k r blank =
      rw (distributed-blank o m r blank, find-jobs (snapshot_rows m) [] k m)
        (elim (Option-cases (find k m)) [
          | inl absent ↦ rw absent refl
          | inr (state, there) ↦ rw (there, find-snapshot_rows k m, there, blank k state there) refl
        ])

  find-blank_job :
      (k : ChunkId) (work : Work) (found : Option ChunkState)
      → blank_job found ≡ some work
      → (work ≡ blank_work) × ((state : ChunkState) × (found ≡ some state))
  find-blank_job k work none e = absurd (cc e)
  find-blank_job k work (some state) e = (sym (some-injective blank_work work e), (state, refl))

  tick_jobs-blank-AreReady :
      (o : Outside) (m : Chunks)
      → IsRegistry m
      → HasIds m
      → AreBlank m
      → AreReady (tick_jobs config o m) m
  unfolding find
  tick_jobs-blank-AreReady o m r ids blank k work listed =
      let job = find-blank_job k work (find k m) (sym (find-tick_jobs o m k r blank) ∙ listed) in
      (
        rw (job.0) (record {
          hid = ids k job.1.0 job.1.1;
          valid = no_rows-IsValid;
          halos = tt;
          distinct = tt;
        }),
        job.1,
      )

  tick_jobs-blank-DistinctKeys :
      (o : Outside) (m : Chunks) → IsRegistry m → AreBlank m → DistinctKeys (tick_jobs config o m)
  unfolding tick_jobs
  tick_jobs-blank-DistinctKeys o m r blank =
      rw (distributed-blank o m r blank) (jobs-DistinctKeys (snapshot_rows m) [] m r.distinct)

  left_by-blank :
      (o : Outside) (c : Chunk) (idle : ℕ)
      → has_subscribers o c.id ≡ false
      → c.rows ≡ no_rows
      → left_by config o c idle
        ≡ (if leb 100 (idle + 1) then none else some (record { chunk = c; idle_ticks = idle + 1 }))
  left_by-blank o c idle unwatched empty =
      let still : (pop_count c == 0) ≡ true =
        ≡→== (pop_count c) 0 ((pop_count-eq-zero_iff c (rw empty no_rows-IsValid)).1 empty) in
      rw (still, unwatched) refl

  -- A well-formed registry of blank chunks that have all been idle for `n` ticks, with zeroed buffers.
  record IsAsleep (n : ℕ) (p : Pool config) : Type 0 where
    registry : IsRegistry p.0.1
    ids : HasIds p.0.1
    blank : AreBlank p.0.1
    idle : AreIdle n p.0.1
    clean : AreClean p.1

  still_idle :
      (n : ℕ) (c : Chunk) (old new : ChunkState)
      → n ≤ old.idle_ticks
      → c.rows ≡ no_rows
      → (if leb 100 (old.idle_ticks + 1)
          then none
          else some (record { chunk = c; idle_ticks = old.idle_ticks + 1 }))
        ≡ some new
      → (new.chunk.rows ≡ no_rows) × (suc n ≤ new.idle_ticks)
  still_idle n c old new waited empty e = elim (Bool-cases (leb 100 (old.idle_ticks + 1))) [
    | inl due ↦ absurd (cc (rw due at e))
    | inr early ↦
        let it = some-injective _ new (rw early at e) in rw (sym it) (empty, omega (arith, waited))
  ]

  tick_all-blank :
      (schedule : List (ChunkId × Work) → List (ChunkId × Work)) (worker_of : ChunkId → ℕ)
      (o : Outside) (m : Chunks) (scratches : ℕ → Counts)
      → IsRegistry m
      → AreBlank m
      → tick_all config schedule worker_of ((o, m), scratches)
        ≡ run_jobs config worker_of (schedule (tick_jobs config o m)) ((o, m), scratches)
  unfolding tick_all
  tick_all-blank schedule worker_of o m scratches r blank =
      ap (λ s. run_jobs config worker_of (schedule (tick_jobs config o m)) ((o, s.0), scratches))
        (distributed-blank o m r blank)

  module _ (unwatched : (o : Outside) (id : ChunkId) → has_subscribers o id ≡ false) where
    run_jobs-IsAsleep :
        (n : ℕ) (schedule : List (ChunkId × Work) → List (ChunkId × Work)) (worker_of : ChunkId → ℕ)
        (p : Pool config)
        → IsSchedule schedule
        → IsAsleep n p
        → IsAsleep (suc n) (run_jobs config worker_of (schedule (tick_jobs config p.0.0 p.0.1)) p)
    unfolding set_rows
    run_jobs-IsAsleep n schedule worker_of ((o, m), scratches) fair asleep =
        let js = tick_jobs config o m in
        let shape = λ (k : ChunkId). find-tick_jobs o m k asleep.registry asleep.blank in
        let order = fair js (tick_jobs-blank-DistinctKeys o m asleep.registry asleep.blank) in
        let done =
          run_jobs_lem config (λ o. Unit {0}) (λ o id cells h. tt, λ o c e h. tt) worker_of
            (schedule js) ((o, m), scratches) order.distinct
            (reordered config (schedule js) js m order
              (tick_jobs-blank-AreReady o m asleep.registry asleep.ids asleep.blank))
            asleep.registry asleep.ids asleep.clean tt in
        let left : (k : ChunkId) (new : ChunkState)
            → find k (run_jobs config worker_of (schedule js) ((o, m), scratches)).0.1 ≡ some new
            → (new.chunk.rows ≡ no_rows) × (suc n ≤ new.idle_ticks) =
          λ k new there. elim (Option-cases (find k m)) [
            | inl absent ↦ absurd (
                cc (sym (done.others k (order.same k ∙ shape k ∙ rw absent refl) ∙ absent) ∙ there))
            | inr (old, before) ↦
                let entry =
                  done.entries k blank_work old (order.same k ∙ shape k ∙ rw before refl) before in
                let c = set_rows old.chunk (next_of k blank_work) in
                let empty = next_of-blank_work k (asleep.ids k old before) in
                still_idle n c old new (asleep.idle k old before) empty (
                  sym (left_by-blank entry.0 c old.idle_ticks (unwatched entry.0 c.id) empty)
                  ∙ sym entry.1
                  ∙ there)
          ] in
        record {
          registry = done.registry;
          ids = done.ids;
          blank = λ k new there. (left k new there).0;
          idle = λ k new there. (left k new there).1;
          clean = done.clean;
        }

    tick_all-IsAsleep :
        (n : ℕ) (schedule : List (ChunkId × Work) → List (ChunkId × Work)) (worker_of : ChunkId → ℕ)
        (p : Pool config)
        → IsSchedule schedule
        → IsAsleep n p
        → IsAsleep (suc n) (tick_all config schedule worker_of p)
    tick_all-IsAsleep n schedule worker_of p fair asleep =
        rw (tick_all-blank schedule worker_of p.0.0 p.0.1 p.1 asleep.registry asleep.blank)
          (run_jobs-IsAsleep n schedule worker_of p fair asleep)

    ticks-IsAsleep :
        (n : ℕ) (rounds : List Round) (p : Pool config)
        → IsAsleep n p
        → IsAsleep (length rounds + n) (ticks config rounds p)
    unfolding ticks
    ticks-IsAsleep n [] p asleep = rw (none_later n) asleep
    ticks-IsAsleep n (round ∷ rounds) p asleep = rw (one_later n (length rounds)) (
        ticks-IsAsleep (suc n) rounds (tick_all config round.schedule round.worker_of p)
          (tick_all-IsAsleep n round.schedule round.worker_of p round.fair asleep))

  -- From a well-formed registry of chunks with 64-bit IDs in which no active chunk has a live cell,
  -- with zeroed buffers and when nobody watches a chunk at any time, no chunk is active any more after
  -- 100 ticks or more, however the jobs are scheduled.
  pub ticks-hibernates :
      (rounds : List Round) (p : Pool config) (k : ChunkId)
      → ((o : Outside) (id : ChunkId) → has_subscribers o id ≡ false)
      → IsRegistry p.0.1
      → HasIds p.0.1
      → AreBlank p.0.1
      → AreClean p.1
      → 100 ≤ length rounds
      → find k (ticks config rounds p).0.1 ≡ none
  ticks-hibernates rounds p k unwatched r ids blank clean enough =
      let asleep = ticks-IsAsleep unwatched 0 rounds p (record {
        registry = r;
        ids = ids;
        blank = blank;
        idle = λ k state there. omega arith;
        clean = clean;
      }) in
      elim (Option-cases (find k (ticks config rounds p).0.1)) [
        | inl gone ↦ gone
        | inr (state, there) ↦
            let waited = asleep.idle k state there in
            let patient = (asleep.registry.states k state there).patient in
            absurd (omega (arith, enough, waited, patient))
      ]

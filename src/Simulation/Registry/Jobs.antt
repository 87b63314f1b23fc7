-- ===== src/Simulation/Registry/Jobs.antt =====
-- processJob among the active chunks: the chunk's next generation, and when it hibernates.
use distributed_game_of_life.Prelude.{
  ◌+◌, ◌≡◌, ◌↔◌, refl, sym, ◌∙◌, arith, Bool, true, false, not, ◌&&◌, leb, ◌==◌, if◌then◌else◌,
  Option, none, some, Bool-cases, inl, inr, ==→≡,
}
use distributed_game_of_life.Simulation.Chunk.{
  ChunkId, Rows, no_rows, set_rows, snapshot, pop_count,
}
use distributed_game_of_life.Simulation.Chunk.Cells.{IsValid}
use distributed_game_of_life.Simulation.Chunk.Population.{pop_count-eq-zero_iff}
use distributed_game_of_life.Simulation.ChunkMap.{
  id_eq, id_eq_iff, find, put, delete, find-put, find-delete, DistinctKeys, put-DistinctKeys,
  delete-DistinctKeys,
}
use distributed_game_of_life.Simulation.Engine.{Halos, no_counts, tick_bitset}
use distributed_game_of_life.Simulation.Engine.Shown.{IsId, AreHalos}
use distributed_game_of_life.Simulation.Engine.Tick.{tick_bitset_lem}
use distributed_game_of_life.Simulation.Registry.{
  ChunkState, Chunks, Config, hibernation_threshold, hibernate, settle, process_job,
}
use distributed_game_of_life.Simulation.Registry.Invariant.{
  IsState, IsRegistry, rows_in, put-IsRegistry,
}

delete-IsRegistry :
    (k : ChunkId) (m : Chunks)
    → ((j : ChunkId) (s : ChunkState) → id_eq k j ≡ false → find j m ≡ some s → IsState j s)
    → DistinctKeys m
    → IsRegistry (delete k m)
delete-IsRegistry k m ok d = record {
  distinct = delete-DistinctKeys k m d;
  states = λ j state e. elim (Bool-cases (id_eq k j)) [
    | inl same ↦ absurd (cc (rw (find-delete k j m, same) at e))
    | inr apart ↦ ok j state apart (rw (find-delete k j m, apart) at e)
  ];
}

-- The state stays under its key.
put_lem :
    (key j : ChunkId) (state : ChunkState) (m : Chunks)
    → IsState key state
    → IsRegistry m
    → IsRegistry (put key state m)
      × (rows_in j (put key state m) ≡ (if id_eq key j then state.chunk.rows else rows_in j m))
      × (find key (put key state m) ≡ some state)
unfolding rows_in
put_lem key j state m s r = (
  put-IsRegistry key state m s r,
  rw (find-put key j state m)
      (elim (Bool-cases (id_eq key j)) [ inl same ↦ rw same refl | inr other ↦ rw other refl ]),
  find-put key key state m ∙ rw ((id_eq_iff key key).1 refl) refl,
)

-- The state, which has no live cell, is taken away again.
delete-put_lem :
    (key own j : ChunkId) (state : ChunkState) (m : Chunks)
    → own ≡ key
    → state.chunk.rows ≡ no_rows
    → IsRegistry m
    → IsRegistry (delete own (put key state m))
      × (rows_in j (delete own (put key state m))
          ≡ (if id_eq key j then state.chunk.rows else rows_in j m))
      × (find key (delete own (put key state m)) ≡ none)
unfolding rows_in
delete-put_lem key own j state m same empty r = rw same (
  delete-IsRegistry key (put key state m)
      (λ k s apart e. r.states k s (rw (find-put key k state m, apart) at e))
      (put-DistinctKeys key state m r.distinct),
  rw (find-delete key j (put key state m), find-put key j state m)
      (elim (Bool-cases (id_eq key j)) [
        | inl same ↦ rw same (sym empty)
        | inr other ↦ rw other refl
      ]),
  find-delete key key (put key state m) ∙ rw ((id_eq_iff key key).1 refl) refl,
)

-- An entry that is there answers a test that fails.
kept_iff :
    (o : Option ChunkState) (state : ChunkState) (test : Bool)
    → o ≡ some state
    → test ≡ false
    → (o ≡ none) ↔ (test ≡ true)
kept_iff o state test there fails = (λ e. absurd (cc), λ e. absurd (cc))

gone_iff :
    (o : Option ChunkState) (test : Bool) → o ≡ none → test ≡ true → (o ≡ none) ↔ (test ≡ true)
gone_iff o test gone passes = (λ e. passes, λ e. gone)

module _ (config : Config) where
  open config use {Outside, has_subscribers, on_tick}

  -- Whether the job's chunk hibernates: it is empty, unwatched, and has been for 100 ticks.
  abbrev pub retires : Outside → ChunkState → Bool
  retires o state =
      pop_count state.chunk == 0
      && not (has_subscribers o state.chunk.id)
      && leb hibernation_threshold (state.idle_ticks + 1)

  -- What settle leaves under each key.
  settle_lem :
      (key j : ChunkId) (state : ChunkState) (o : Outside) (m : Chunks)
      → IsValid state.chunk.rows
      → state.chunk.id ≡ key
      → IsRegistry m
      → IsRegistry (settle config key state (o, m)).1
        × (rows_in j (settle config key state (o, m)).1
            ≡ (if id_eq key j then state.chunk.rows else rows_in j m))
        × ((find key (settle config key state (o, m)).1 ≡ none) ↔ (retires o state ≡ true))
  unfolding settle hibernate rows_in
  settle_lem key j state o m v same r =
      let c = state.chunk in
      let idle = state.idle_ticks + 1 in
      elim (Bool-cases (pop_count c == 0 && not (has_subscribers o c.id))) [
        | inl resting ↦ elim (Bool-cases (leb 100 idle)) [
          | inl due ↦
              let empty : c.rows ≡ no_rows =
                (pop_count-eq-zero_iff c v).0 (==→≡ (pop_count c) 0 (ground arith)) in
              let done =
                delete-put_lem key c.id j (record { chunk = c; idle_ticks = idle }) m same empty
                  r in
              rw (resting, due) (done.0, done.1, gone_iff _ true done.2 refl)
          | inr early ↦
              let done =
                put_lem key j (record { chunk = c; idle_ticks = idle }) m
                  (record { same_id = same; valid = v; patient = ground arith }) r in
              rw (resting, early) (done.0, done.1, kept_iff _ _ false done.2 refl)
        ]
        | inr busy ↦
            let done =
              put_lem key j (record { chunk = c; idle_ticks = 0 }) m
                (record { same_id = same; valid = v; patient = omega arith }) r in
            rw busy (done.0, done.1, kept_iff _ _ false done.2 refl)
      ]

  process_job_own :
      (j : ChunkId) (state : ChunkState) (rows : Rows) (halos : Halos) (o : Outside) (m : Chunks)
      → IsId state.chunk.id
      → IsValid rows
      → AreHalos state.chunk.id halos
      → DistinctKeys halos
      → IsRegistry m
      → let key = state.chunk.id in
        let after = (process_job config key state rows halos no_counts (o, m)).0.1 in
        let ticked = set_rows state.chunk (tick_bitset key rows halos no_counts).0 in
        let told = on_tick o key (snapshot ticked) in
        IsRegistry after
        × (rows_in j after
            ≡ (if id_eq key j then (tick_bitset key rows halos no_counts).0 else rows_in j m))
        × ((find key after ≡ none) ↔ (retires told (record state { chunk = ticked }) ≡ true))
        × ((process_job config key state rows halos no_counts (o, m)).1 ≡ no_counts)
  unfolding process_job set_rows
  process_job_own j state rows halos o m hid v h d r =
      let key = state.chunk.id in
      let next = tick_bitset_lem key rows halos hid v h d in
      let ticked = set_rows state.chunk (tick_bitset key rows halos no_counts).0 in
      let told = on_tick o key (snapshot ticked) in
      let done = settle_lem key j (record state { chunk = ticked }) told m next.0 refl r in
      (done.0, done.1, done.2, next.2)

  -- A job with valid rows and halos, on a zeroed buffer, keeps the registry well formed. Among the active
  -- chunks, where one that is not active counts as blank, its chunk then has its next generation, and every
  -- other chunk is unchanged. The buffer is zero again.
  pub process_job-rows_in :
      (key j : ChunkId) (state : ChunkState) (rows : Rows) (halos : Halos) (o : Outside)
      (m : Chunks)
      → IsId key
      → IsValid rows
      → AreHalos key halos
      → DistinctKeys halos
      → IsRegistry m
      → find key m ≡ some state
      → let after = (process_job config key state rows halos no_counts (o, m)).0.1 in
        let ticked = set_rows state.chunk (tick_bitset key rows halos no_counts).0 in
        let told = on_tick o key (snapshot ticked) in
        IsRegistry after
        × (rows_in j after
            ≡ (if id_eq key j then (tick_bitset key rows halos no_counts).0 else rows_in j m))
        × ((find key after ≡ none) ↔ (retires told (record state { chunk = ticked }) ≡ true))
        × ((process_job config key state rows halos no_counts (o, m)).1 ≡ no_counts)
  unfolding process_job set_rows
  process_job-rows_in key j state rows halos o m hid v h d r found =
      let same = (r.states key state found).same_id in
      rw (sym same)
        (process_job_own j state rows halos o m (rw (sym same) at hid) v (rw (sym same) at h) d r)

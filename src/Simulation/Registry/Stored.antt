-- ===== src/Simulation/Registry/Stored.antt =====
-- processJob, with what is stored: the chunk's next generation is there whether or not the chunk hibernates.
use distributed_game_of_life.Prelude.{
  ℕ, ◌+◌, ◌≡◌, ◌↔◌, ◌≤◌, refl, sym, ap, ◌∙◌, arith, true, false, leb, ==→≡, if◌then◌else◌, Option,
  none, some, Bool-cases, inl, inr,
}
use distributed_game_of_life.Simulation.Chunk.{
  ChunkId, Rows, no_rows, set_rows, snapshot, pop_count,
}
use distributed_game_of_life.Simulation.Chunk.Cells.{IsValid}
use distributed_game_of_life.Simulation.Chunk.Population.{pop_count-eq-zero_iff}
use distributed_game_of_life.Simulation.ChunkMap.{id_eq, find, DistinctKeys}
use distributed_game_of_life.Simulation.Engine.{Halos, no_counts, tick_bitset}
use distributed_game_of_life.Simulation.Engine.Shown.{IsId, AreHalos}
use distributed_game_of_life.Simulation.Engine.Tick.{tick_bitset_lem}
use distributed_game_of_life.Simulation.Registry.{
  ChunkState, Chunks, Config, loaded, hydrated, hibernate, settle, process_job,
}
use distributed_game_of_life.Simulation.Registry.Invariant.{IsRegistry}
use distributed_game_of_life.Simulation.Registry.Jobs.{retires, process_job-rows_in}
use distributed_game_of_life.Simulation.Registry.Lifetime.{rests, left_by, find-settle}

module _ (config : Config) where
  open config use {Outside, load, persist, has_subscribers, on_tick}

  abbrev seen_or : Rows → Option ChunkState → Rows
  seen_or rows none = rows
  seen_or rows (some state) = state.chunk.rows

  -- The rows that a client is shown of a chunk: those of the active chunk, or those that are stored.
  abbrev pub rows_seen : Outside → ChunkId → Chunks → Rows
  rows_seen o k m = seen_or (hydrated k (load o k)).rows (find k m)

  settle-stays :
      (key j : ChunkId) (state : ChunkState) (o : Outside) (m : Chunks) (idle : ℕ)
      (after : Outside × Chunks)
      → after.0 ≡ o
      → find j after.1 ≡ (
          if id_eq key j
          then some (record { chunk = state.chunk; idle_ticks = idle })
          else find j m)
      → rows_seen after.0 j after.1 ≡ (if id_eq key j then state.chunk.rows else rows_seen o j m)
  settle-stays key j state o m idle after same left = elim (Bool-cases (id_eq key j)) [
    | inl own ↦ rw (left, own) refl
    | inr other ↦ rw (same, left, other) refl
  ]

  settle-leaves :
      (key j : ChunkId) (state : ChunkState) (o : Outside) (m : Chunks) (after : Outside × Chunks)
      → after.0 ≡ persist o state.chunk
      → load (persist o state.chunk) j ≡ (if id_eq key j then loaded state.chunk else load o j)
      → find j after.1 ≡ (if id_eq key j then none else find j m)
      → rows_seen after.0 j after.1 ≡ (if id_eq key j then state.chunk.rows else rows_seen o j m)
  unfolding hydrated
  settle-leaves key j state o m after same saved left = elim (Bool-cases (id_eq key j)) [
    | inl own ↦ rw (same, saved, left, own) refl
    | inr other ↦ rw (same, saved, left, other) refl
  ]

  left_under :
      (key j : ChunkId) (state : ChunkState) (o : Outside) (m : Chunks) (e : Option ChunkState)
      → state.chunk.id ≡ key
      → left_by config o state.chunk state.idle_ticks ≡ e
      → find j (settle config key state (o, m)).1 ≡ (if id_eq key j then e else find j m)
  left_under key j state o m e same is =
      find-settle config key j state o m same ∙ ap (λ x. if id_eq key j then x else find j m) is

  rows_seen-settle :
      (key j : ChunkId) (state : ChunkState) (o : Outside) (m : Chunks)
      → state.chunk.id ≡ key
      → load (persist o state.chunk) j ≡ (if id_eq key j then loaded state.chunk else load o j)
      → let after = settle config key state (o, m) in
        rows_seen after.0 j after.1 ≡ (if id_eq key j then state.chunk.rows else rows_seen o j m)
  unfolding settle hibernate
  rows_seen-settle key j state o m same saved =
      let c = state.chunk in
      let idle = state.idle_ticks + 1 in
      let after = settle config key state (o, m) in
      elim (Bool-cases (rests config o c)) [
        | inl resting ↦ elim (Bool-cases (leb 100 idle)) [
          | inl due ↦
              settle-leaves key j state o m after (rw (resting, due) refl) saved
                (left_under key j state o m none same (rw (resting, due) refl))
          | inr early ↦ settle-stays key j state o m idle after (rw (resting, early) refl) (
              left_under key j state o m (some (record { chunk = c; idle_ticks = idle })) same
                (rw (resting, early) refl))
        ]
        | inr busy ↦ settle-stays key j state o m 0 after (rw busy refl) (
            left_under key j state o m (some (record { chunk = c; idle_ticks = 0 })) same
              (rw busy refl))
      ]

  retires_iff :
      (o : Outside) (state : ChunkState)
      → IsValid state.chunk.rows
      → (retires config o state ≡ true) ↔ (
          (state.chunk.rows ≡ no_rows)
          × (has_subscribers o state.chunk.id ≡ false)
          × (100 ≤ state.idle_ticks + 1))
  retires_iff o state v =
      let blank = pop_count-eq-zero_iff state.chunk v in
      let watched = has_subscribers o state.chunk.id in
      (
        λ e. (blank.0 (==→≡ (pop_count state.chunk) 0 (ground arith)), ground arith, ground arith),
        λ h.
            let empty : pop_count state.chunk ≡ 0 = blank.1 h.0 in
            let free : watched ≡ false = h.1 in
            let late : 100 ≤ state.idle_ticks + 1 = h.2 in ground arith,
      )

  process_job_own :
      (j : ChunkId) (state : ChunkState) (rows : Rows) (halos : Halos) (o : Outside) (m : Chunks)
      → IsId state.chunk.id
      → IsValid rows
      → AreHalos state.chunk.id halos
      → DistinctKeys halos
      → IsRegistry m
      → find state.chunk.id m ≡ some state
      → let ticked = set_rows state.chunk (tick_bitset state.chunk.id rows halos no_counts).0 in
        load (on_tick o state.chunk.id (snapshot ticked)) j ≡ load o j
        → let ticked = set_rows state.chunk (tick_bitset state.chunk.id rows halos no_counts).0 in
          let told = on_tick o state.chunk.id (snapshot ticked) in
          load (persist told ticked) j
            ≡ (if id_eq state.chunk.id j then loaded ticked else load told j)
          → let next = (tick_bitset state.chunk.id rows halos no_counts).0 in
            let told = on_tick o state.chunk.id (snapshot (set_rows state.chunk next)) in
            let done = process_job config state.chunk.id state rows halos no_counts (o, m) in
            IsRegistry done.0.1
            × (rows_seen done.0.0 j done.0.1
                ≡ (if id_eq state.chunk.id j then next else rows_seen o j m))
            × ((find state.chunk.id done.0.1 ≡ none) ↔ (
                (next ≡ no_rows)
                × (has_subscribers told state.chunk.id ≡ false)
                × (100 ≤ state.idle_ticks + 1)))
            × (done.1 ≡ no_counts)
  unfolding process_job set_rows
  process_job_own j state rows halos o m hid v h d r found quiet saved =
      let key = state.chunk.id in
      let ticked = set_rows state.chunk (tick_bitset key rows halos no_counts).0 in
      let told = on_tick o key (snapshot ticked) in
      let among = process_job-rows_in config key j state rows halos o m hid v h d r found in
      let valid = (tick_bitset_lem key rows halos hid v h d).0 in
      let here = rows_seen-settle key j (record state { chunk = ticked }) told m refl saved in
      let before : rows_seen told j m ≡ rows_seen o j m =
        ap (λ l. seen_or (hydrated j l).rows (find j m)) quiet in
      let gone = retires_iff told (record state { chunk = ticked }) valid in
      (
        among.0,
        here ∙ ap (λ x. if id_eq key j then ticked.rows else x) before,
        (λ e. gone.0 (among.2.0 e), λ e. among.2.1 (gone.1 e)),
        among.3,
      )

  -- A job with valid rows and halos, on a zeroed buffer, where OnTick leaves the stored chunk alone and
  -- Persist saves the chunk it is given and no other: the registry stays well formed; what a client is
  -- shown of the job's chunk, from the map or else from storage, is its next generation, and of any other
  -- chunk what it was before; the chunk leaves the map if and only if it then has no live cell, nobody
  -- watches it, and this makes at least 100 idle ticks; and the buffer is zero again.
  pub process_job_lem :
      (key j : ChunkId) (state : ChunkState) (rows : Rows) (halos : Halos) (o : Outside)
      (m : Chunks)
      → IsId key
      → IsValid rows
      → AreHalos key halos
      → DistinctKeys halos
      → IsRegistry m
      → find key m ≡ some state
      → let ticked = set_rows state.chunk (tick_bitset key rows halos no_counts).0 in
        load (on_tick o key (snapshot ticked)) j ≡ load o j
        → let ticked = set_rows state.chunk (tick_bitset key rows halos no_counts).0 in
          let told = on_tick o key (snapshot ticked) in
          load (persist told ticked) j ≡ (if id_eq key j then loaded ticked else load told j)
          → let next = (tick_bitset key rows halos no_counts).0 in
            let told = on_tick o key (snapshot (set_rows state.chunk next)) in
            let done = process_job config key state rows halos no_counts (o, m) in
            IsRegistry done.0.1
            × (rows_seen done.0.0 j done.0.1 ≡ (if id_eq key j then next else rows_seen o j m))
            × ((find key done.0.1 ≡ none) ↔ (
                (next ≡ no_rows)
                × (has_subscribers told key ≡ false)
                × (100 ≤ state.idle_ticks + 1)))
            × (done.1 ≡ no_counts)
  process_job_lem key j state rows halos o m hid v h d r found quiet saved =
      let same = (r.states key state found).same_id in
      rw (sym same) (
        process_job_own j state rows halos o m (rw (sym same) at hid) v (rw (sym same) at h) d r
          (rw (sym same) at found) (rw (sym same) at quiet) (rw (sym same) at saved))

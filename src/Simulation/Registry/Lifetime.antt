-- ===== src/Simulation/Registry/Lifetime.antt =====
-- The entry that processJob leaves for its chunk, and that it leaves the others alone.
use distributed_game_of_life.Prelude.{
  ℕ, List, ==→≡, ◌+◌, ◌≡◌, refl, ap, arith, Bool, not, ◌&&◌, leb, ◌==◌, if◌then◌else◌, Option, none,
  some, Bool-cases, inl, inr,
}
use distributed_game_of_life.Simulation.Chunk.{
  ChunkId, Rows, Chunk, no_rows, set_rows, snapshot, pop_count,
}
use distributed_game_of_life.Simulation.Chunk.Cells.{IsValid}
use distributed_game_of_life.Simulation.Chunk.Population.{pop_count-eq-zero_iff}
use distributed_game_of_life.Simulation.ChunkMap.{id_eq, find, put, find-put, find-delete}
use distributed_game_of_life.Simulation.Engine.{Halos, Counts, tick_bitset}
use distributed_game_of_life.Simulation.Registry.{
  ChunkState, Chunks, Config, hibernate, settle, process_job,
}

module _ (config : Config) where
  open config use {Outside, has_subscribers, on_tick, persist}

  -- Nobody watches the chunk and it has no live cell.
  abbrev pub rests : Outside → Chunk → Bool
  rests o c = pop_count c == 0 && not (has_subscribers o c.id)

  -- The entry that is left: none if the chunk hibernates.
  abbrev pub left_by : Outside → Chunk → ℕ → Option ChunkState
  left_by o c idle =
      if rests o c
      then (if leb 100 (idle + 1) then none else some (record { chunk = c; idle_ticks = idle + 1 }))
      else some (record { chunk = c; idle_ticks = 0 })

  pub find-settle :
      (key j : ChunkId) (state : ChunkState) (o : Outside) (m : Chunks)
      → state.chunk.id ≡ key
      → find j (settle config key state (o, m)).1
        ≡ (if id_eq key j then left_by o state.chunk state.idle_ticks else find j m)
  unfolding settle hibernate
  find-settle key j state o m same =
      let c = state.chunk in
      let idle = state.idle_ticks + 1 in
      let keys : id_eq c.id j ≡ id_eq key j = ap (λ k. id_eq k j) same in
      elim (Bool-cases (rests o c)) [
        | inl resting ↦ elim (Bool-cases (leb 100 idle)) [
          | inl due ↦
              rw
                (
                  resting,
                  due,
                  find-delete c.id j (put key (record { chunk = c; idle_ticks = idle }) m),
                  find-put key j (record { chunk = c; idle_ticks = idle }) m,
                  keys,
                )
                (elim (Bool-cases (id_eq key j)) [
                  | inl own ↦ rw own refl
                  | inr other ↦ rw other refl
                ])
          | inr early ↦
              rw (resting, early, find-put key j (record { chunk = c; idle_ticks = idle }) m) refl
        ]
        | inr busy ↦ rw (busy, find-put key j (record { chunk = c; idle_ticks = 0 }) m) refl
      ]

  -- The chunk of a job with the rows of the next generation.
  abbrev pub ticked : ChunkState → Rows → Halos → Counts → Chunk
  ticked state rows halos scratch =
      set_rows state.chunk (tick_bitset state.chunk.id rows halos scratch).0

  pub find-process_job :
      (key j : ChunkId) (state : ChunkState) (rows : Rows) (halos : Halos) (scratch : Counts)
      (o : Outside) (m : Chunks)
      → state.chunk.id ≡ key
      → find j (process_job config key state rows halos scratch (o, m)).0.1 ≡ (
          if id_eq key j
          then left_by
              (on_tick o state.chunk.id (snapshot (ticked state rows halos scratch)))
              (ticked state rows halos scratch)
              state.idle_ticks
          else find j m)
  unfolding process_job set_rows
  find-process_job key j state rows halos scratch o m same =
      find-settle key j (record state { chunk = ticked state rows halos scratch })
        (on_tick o state.chunk.id (snapshot (ticked state rows halos scratch))) m same

  -- What is behind the registry is told of the new cells, and saves the chunk only if it is blank.
  module _ (Holds : Outside → Type 0) where
    abbrev pub IsKept : Type 0
    IsKept =
        ((o : Outside) (id : ChunkId) (cells : List ℕ) → Holds o → Holds (on_tick o id cells))
        × ((o : Outside) (c : Chunk) → c.rows ≡ no_rows → Holds o → Holds (persist o c))

    outside-settle :
        (key : ChunkId) (state : ChunkState) (o : Outside) (m : Chunks)
        → IsKept
        → IsValid state.chunk.rows
        → Holds o
        → Holds (settle config key state (o, m)).0
    unfolding settle hibernate
    outside-settle key state o m kept v holds =
        let c = state.chunk in
        elim (Bool-cases (rests o c)) [
          | inl resting ↦ elim (Bool-cases (leb 100 (state.idle_ticks + 1))) [
            | inl due ↦
                let empty : c.rows ≡ no_rows =
                  (pop_count-eq-zero_iff c v).0 (==→≡ (pop_count c) 0 (ground arith)) in
                rw (resting, due) (kept.1 o c empty holds)
            | inr early ↦ rw (resting, early) holds
          ]
          | inr busy ↦ rw busy holds
        ]

    pub outside-process_job :
        (key : ChunkId) (state : ChunkState) (rows : Rows) (halos : Halos) (scratch : Counts)
        (o : Outside) (m : Chunks)
        → IsKept
        → IsValid (ticked state rows halos scratch).rows
        → Holds o
        → Holds (process_job config key state rows halos scratch (o, m)).0.0
    unfolding process_job set_rows
    outside-process_job key state rows halos scratch o m kept v holds =
        let c = ticked state rows halos scratch in
        outside-settle key (record state { chunk = c }) (on_tick o state.chunk.id (snapshot c)) m
          kept v (kept.0 o state.chunk.id (snapshot c) holds)

-- ===== src/Simulation/Threads/Evicted.antt =====
-- A chunk that is evicted while a goroutine has its handle.
use distributed_game_of_life.Prelude.{ℕ, ◌≡◌, refl, ap, ≡→==, true, none}
use distributed_game_of_life.Simulation.Chunk.{Chunk}
use distributed_game_of_life.Simulation.Chunk.Cells.{cell}
use distributed_game_of_life.Simulation.ChunkMap.{id_eq_iff, find, delete, find-delete}
use distributed_game_of_life.Simulation.Registry.{Config}
use distributed_game_of_life.Simulation.Threads.{
  holding, Memory, evict, advance, turn, loaded_chunk, rows_seen,
}
use distributed_game_of_life.Simulation.Threads.Coherence.{IsCoherent}
use distributed_game_of_life.Simulation.Threads.Moves.{is_done}
use distributed_game_of_life.Simulation.Threads.Seen.{cell_seen}

module _ (config : Config) where
  finishes :
      (o : config.Outside) (t a : ℕ) (s : Memory)
      → (s.threads t).phase ≡ holding a
      → (is_done ((turn config o t s).threads t).phase ≡ true)
        × ((turn config o t s).entries ≡ s.entries)
  unfolding turn advance
  finishes o t a s phase = rw (phase, ≡→== t t refl) (refl, refl)

  -- A goroutine has the handle of a chunk on a coherent memory, and hibernate persists that chunk, whose
  -- storage gives it back as it is, and evicts it, before the goroutine's ProcessSpawn: then the goroutine is
  -- done, but the chunk of that ID, read through the map and storage, has the cells that it had before.
  pub turn-evict :
      (o : config.Outside) (t a : ℕ) (s : Memory)
      → IsCoherent config o s
      → (s.threads t).phase ≡ holding a
      → loaded_chunk config (config.persist o (s.heap a)) (s.threads t).id ≡ s.heap a
      → let o' = config.persist o (s.heap a) in
        let s' = turn config o' t (evict (s.threads t).id s) in
        (is_done (s'.threads t).phase ≡ true)
        × ((i j : ℕ)
            → cell_seen config o' s' (s.threads t).id i j
              ≡ cell_seen config o s (s.threads t).id i j)
  unfolding evict rows_seen
  turn-evict o t a s ok phase kept =
      let o' = config.persist o (s.heap a) in
      let id = (s.threads t).id in
      let after = finishes o' t a (evict id s) phase in
      let mine = rw phase at (ok.phases t) in
      let gone : find id (delete id s.entries) ≡ none =
        rw (find-delete id id s.entries, (id_eq_iff id id).1 refl) refl in
      (after.0, λ i j. rw (after.1, gone, mine) (ap (λ (c : Chunk). cell c.rows i j) kept))

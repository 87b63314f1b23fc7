-- ===== src/Simulation/Threads/Coherence.antt =====
-- What the goroutines keep: every handle is that of the chunk in the map.
use distributed_game_of_life.Prelude.{
  ℕ, ◌≡◌, ◌≢◌, ◌<◌, sym, ◌∙◌, false, ◌==◌, ==→≡, length, List, some, Bool-cases, inl, inr,
}
use distributed_game_of_life.Simulation.Chunk.{ChunkId, Chunk}
use distributed_game_of_life.Simulation.Chunk.Cells.{IsValid}
use distributed_game_of_life.Simulation.ChunkMap.{find, DistinctKeys}
use distributed_game_of_life.Simulation.Registry.{Config}
use distributed_game_of_life.Simulation.Threads.{
  Phase, begun, missed, done, made, holding, Memory, go_on, loaded_chunk,
}

-- The entry of a chunk has the address of a valid chunk with its ID.
pub record IsEntry (heap : ℕ → Chunk) (next : ℕ) (k : ChunkId) (a : ℕ) : Type 0 where
  pub below : a < next
  pub same_id : (heap a).id ≡ k
  pub valid : IsValid (heap a).rows

module _ (config : Config) (o : config.Outside) where
  -- A chunk that was made and is not in the map yet is as Load found it, and a handle has the address of the
  -- chunk in the map.
  abbrev pub PhaseOk : (ℕ → Chunk) → ℕ → List (ChunkId × ℕ) → ChunkId → Phase → Type 0
  PhaseOk heap next entries id begun = Unit {0}
  PhaseOk heap next entries id missed = Unit {0}
  PhaseOk heap next entries id done = Unit {0}
  PhaseOk heap next entries id (made a) =
      (a < next) × (heap a ≡ loaded_chunk config o id) × ((k : ChunkId) → find k entries ≢ some a)
  PhaseOk heap next entries id (holding a) = find id entries ≡ some a

  -- The map has one entry for each active chunk, which the gauge counts; no two goroutines have made the
  -- same chunk.
  pub record IsCoherent (s : Memory) : Type 0 where
    pub distinct : DistinctKeys s.entries
    pub counted : s.active_chunk_actors ≡ length s.entries
    pub entry : (k : ChunkId) (a : ℕ) → find k s.entries ≡ some a → IsEntry s.heap s.next k a
    pub phases : (t : ℕ) → PhaseOk s.heap s.next s.entries (s.threads t).id (s.threads t).phase
    pub unshared : (t u a : ℕ) → (s.threads t).phase ≡ made a → (s.threads u).phase ≡ made a → t ≡ u

  -- The goroutine `t` goes on to a phase, and each other one stays as it is.
  module _ (t : ℕ) (p : Phase) (s : Memory) where
    pub go_on-phases :
        PhaseOk s.heap s.next s.entries (s.threads t).id p
        → ((j : ℕ)
            → (t == j) ≡ false
            → PhaseOk s.heap s.next s.entries (s.threads j).id (s.threads j).phase)
        → (j : ℕ)
        → PhaseOk s.heap s.next s.entries
            ((go_on t p s).threads j).id
            ((go_on t p s).threads j).phase
    go_on-phases own others j = elim (Bool-cases (t == j)) [
      | inl same ↦ rw same own
      | inr other ↦ rw other (others j other)
    ]

    pub go_on-unshared :
        ((j u a : ℕ) → (s.threads j).phase ≡ made a → (s.threads u).phase ≡ made a → j ≡ u)
        → ((u a : ℕ) → (t == u) ≡ false → p ≡ made a → (s.threads u).phase ≢ made a)
        → (j u a : ℕ) → ((go_on t p s).threads j).phase ≡ made a
        → ((go_on t p s).threads u).phase ≡ made a
        → j ≡ u
    go_on-unshared old new j u a hj hu = elim (Bool-cases (t == j)) [
      | inl own ↦ elim (Bool-cases (t == u)) [
        | inl also ↦ sym (==→≡ t j own) ∙ ==→≡ t u also
        | inr other ↦ absurd (new u a other (rw own at hj) (rw other at hu))
      ]
      | inr apart ↦ elim (Bool-cases (t == u)) [
        | inl also ↦ absurd (new j a apart (rw also at hu) (rw apart at hj))
        | inr other ↦ old j u a (rw apart at hj) (rw other at hu)
      ]
    ]

-- ===== src/Simulation/Threads/Handles.antt =====
-- How the phases of the goroutines bear the changes of the memory.
use distributed_game_of_life.Prelude.{
  ℕ, ◌+◌, ◌≡◌, ◌≢◌, refl, sym, ap, ◌∙◌, arith, ◌==◌, ==→≡, length, List, [], ◌∷◌, Option, none,
  some, Bool-cases, inl, inr,
}
use mathlib.Core.Option.{some-injective}
use distributed_game_of_life.Prelude.Update.{write, write_other}
use distributed_game_of_life.Simulation.Chunk.{ChunkId, Chunk}
use distributed_game_of_life.Simulation.ChunkMap.{id_eq, id_eq_iff, find, put, find-put}
use distributed_game_of_life.Simulation.Registry.{Config}
use distributed_game_of_life.Simulation.Threads.{
  Phase, begun, missed, done, made, holding, Memory, looked_up,
}
use distributed_game_of_life.Simulation.Threads.Coherence.{PhaseOk}

pub made-injective : (a b : ℕ) → made a ≡ made b → a ≡ b
made-injective a b e = cc e

pub length-put :
    (k : ChunkId) (a : ℕ) (m : List (ChunkId × ℕ))
    → find k m ≡ none
    → length (put k a m) ≡ length m + 1
unfolding find put
length-put k a [] h = refl
length-put k a ((j, b) ∷ m) h = elim (Bool-cases (id_eq j k)) [
  | inl same ↦ absurd (cc (rw same at h))
  | inr other ↦ rw other (omega (arith, length-put k a m (rw other at h)))
]

module _ (config : Config) (o : config.Outside) where
  pub looked_up-Ok :
      (heap : ℕ → Chunk) (next : ℕ) (entries : List (ChunkId × ℕ)) (id : ChunkId) (found : Option ℕ)
      → find id entries ≡ found
      → PhaseOk config o heap next entries id (looked_up found)
  looked_up-Ok heap next entries id none e = tt
  looked_up-Ok heap next entries id (some a) e = e

  pub looked_up-ne-made : (found : Option ℕ) (a : ℕ) → looked_up found ≢ made a
  looked_up-ne-made none a e = absurd (cc e)
  looked_up-ne-made (some b) a e = absurd (cc e)

  module _ (s : Memory) where
    -- The chunks below `next` stay as they are when a new one is made there.
    pub Ok-alloc :
        (id : ChunkId) (p : Phase) (c : Chunk)
        → PhaseOk config o s.heap s.next s.entries id p
        → PhaseOk config o (write s.next c s.heap) (s.next + 1) s.entries id p
    Ok-alloc id begun c h = tt
    Ok-alloc id missed c h = tt
    Ok-alloc id done c h = tt
    Ok-alloc id (made a) c h =
        (omega (arith, h.0), write_other s.next a c s.heap (ground (arith, h.0)) ∙ h.1, h.2)
    Ok-alloc id (holding a) c h = h

    -- An entry for a chunk that had none leaves the handles, and the other chunks that were made, as they are.
    pub Ok-insert :
        (id k : ChunkId) (a : ℕ) (p : Phase)
        → find id s.entries ≡ none
        → p ≢ made a
        → PhaseOk config o s.heap s.next s.entries k p
        → PhaseOk config o s.heap s.next (put id a s.entries) k p
    Ok-insert id k a begun absent other h = tt
    Ok-insert id k a missed absent other h = tt
    Ok-insert id k a done absent other h = tt
    Ok-insert id k a (made b) absent other h = (
      h.0,
      h.1,
      λ j found. elim (Bool-cases (id_eq id j)) [
        | inl same ↦
            let it = some-injective a b (rw (find-put id j a s.entries, same) at found) in
            other (ap made (sym it))
        | inr apart ↦ h.2 j (rw (find-put id j a s.entries, apart) at found)
      ],
    )
    Ok-insert id k a (holding b) absent other h =
        find-put id k a s.entries ∙ elim (Bool-cases (id_eq id k)) [
          | inl same ↦
              let gone = rw ((id_eq_iff id k).0 same) at absent in absurd (cc (sym gone ∙ h))
          | inr apart ↦ rw apart h
        ]

    -- A write to a chunk of the map leaves those that were made as they are.
    pub Ok-write :
        (id k : ChunkId) (a : ℕ) (c : Chunk) (p : Phase)
        → find id s.entries ≡ some a
        → PhaseOk config o s.heap s.next s.entries k p
        → PhaseOk config o (write a c s.heap) s.next s.entries k p
    Ok-write id k a c begun there h = tt
    Ok-write id k a c missed there h = tt
    Ok-write id k a c done there h = tt
    Ok-write id k a c (made b) there h = elim (Bool-cases (a == b)) [
      | inl same ↦ absurd (h.2 id (there ∙ ap some (==→≡ a b same)))
      | inr other ↦ (h.0, write_other a b c s.heap other ∙ h.1, h.2)
    ]
    Ok-write id k a c (holding b) there h = h

-- ===== src/Simulation/Threads/Spawned.antt =====
-- What goroutines that spawn cells have done to the chunks, whatever the order of their steps.
use distributed_game_of_life.Prelude.{
  ℕ, ◌≡◌, ◌⊎◌, ◌↔◌, ◌≤◌, refl, sym, ◌∙◌, arith, Bool, true, false, ◌&&◌, ◌||◌, ◌==◌, ==→≡, ≡→==,
  List, [], ◌∷◌, Bool-cases, inl, inr,
}
use distributed_game_of_life.Simulation.Chunk.{ChunkId}
use distributed_game_of_life.Simulation.Chunk.Cells.{in_chunk}
use distributed_game_of_life.Simulation.ChunkMap.{id_eq_iff}
use distributed_game_of_life.Simulation.Registry.{Config}
use distributed_game_of_life.Simulation.Threads.{
  Phase, begun, missed, done, made, holding, Memory, turn, run,
}
use distributed_game_of_life.Simulation.Threads.Coherence.{IsCoherent}
use distributed_game_of_life.Simulation.Threads.Steps.{turn-IsCoherent}
use distributed_game_of_life.Simulation.Threads.Moves.{
  is_done, is_holding, turns_of, turn-IsMove, four_turns,
}
use distributed_game_of_life.Simulation.Threads.Seen.{lands, cell_seen, turn-seen}

holding-not_done : (p : Phase) → is_holding p ≡ true → is_done p ≡ false
holding-not_done (holding a) h = refl
holding-not_done begun h = absurd (cc h)
holding-not_done missed h = absurd (cc h)
holding-not_done done h = absurd (cc h)
holding-not_done (made a) h = absurd (cc h)

both_true : (a b : Bool) → (a && b) ≡ true → (a ≡ true) × (b ≡ true)
both_true true b h = (refl, h)
both_true false b h = absurd (cc h)

before_false : (a b : Bool) → (a || b) ≡ false → a ≡ false
before_false false b h = refl
before_false true b h = absurd (cc h)

module _ (config : Config) (o : config.Outside) where
  turn-lands :
      (t u : ℕ) (s : Memory) (k : ChunkId) (i j : ℕ)
      → lands ((turn config o t s).threads u) k i j ≡ lands (s.threads u) k i j
  turn-lands t u s k i j =
      let m = turn-IsMove config o t s in
      elim (Bool-cases (t == u)) [
        | inl same ↦ rw (m.threads u, same, sym (==→≡ t u same)) refl
        | inr other ↦ rw (m.threads u, other) refl
      ]

  turn-done :
      (t u : ℕ) (s : Memory)
      → is_done ((turn config o t s).threads u).phase
        ≡ (is_done (s.threads u).phase || (t == u && is_holding (s.threads u).phase))
  turn-done t u s =
      let m = turn-IsMove config o t s in
      elim (Bool-cases (t == u)) [
        | inl same ↦ rw (m.threads u, same, sym (==→≡ t u same)) (m.finishes)
        | inr other ↦ rw (m.threads u, other) (ground arith)
      ]

  run-done :
      (u : ℕ) (ts : List ℕ) (s : Memory)
      → is_done (s.threads u).phase ≡ true
      → is_done ((run config o ts s).threads u).phase ≡ true
  unfolding run
  run-done u [] s h = h
  run-done u (t ∷ ts) s h = run-done u ts (turn config o t s) (rw (turn-done t u s, h) refl)

  -- A goroutine has spawned its cell, here, in the run of a schedule.
  abbrev pub Spawned : List ℕ → Memory → ChunkId → ℕ → ℕ → ℕ → Type 0
  Spawned ts s k i j u =
      (is_done (s.threads u).phase ≡ false)
      × (is_done ((run config o ts s).threads u).phase ≡ true)
      × (lands (s.threads u) k i j ≡ true)

  module _ (t : ℕ) (ts : List ℕ) (s : Memory) (ok : IsCoherent config o s) (k : ChunkId)
      (i j : ℕ) where
    step-seen :
        cell_seen config o (turn config o t s) k i j ≡ true
        → (cell_seen config o s k i j ≡ true) ⊎ ((u : ℕ) × Spawned (t ∷ ts) s k i j u)
    unfolding run
    step-seen seen =
        elim (Bool-cases (is_holding (s.threads t).phase && lands (s.threads t) k i j)) [
          | inl both ↦
              let parts =
                both_true (is_holding (s.threads t).phase) (lands (s.threads t) k i j) both in
              let own = ≡→== t t refl in
              let now = turn-done t t s ∙ rw (own, parts.0) (ground arith) in
              inr (
                t,
                (
                  holding-not_done (s.threads t).phase parts.0,
                  run-done t ts (turn config o t s) now,
                  parts.1,
                ),
              )
          | inr neither ↦ inl (rw (turn-seen config o t s k i j ok, neither) at seen)
        ]

    later : (u : ℕ) → Spawned ts (turn config o t s) k i j u → Spawned (t ∷ ts) s k i j u
    unfolding run
    later u h = (
      before_false (is_done (s.threads u).phase) (t == u && is_holding (s.threads u).phase)
          (sym (turn-done t u s) ∙ h.0),
      h.1,
      sym (turn-lands t u s k i j) ∙ h.2,
    )

    earlier :
        (u : ℕ)
        → Spawned (t ∷ ts) s k i j u
        → (cell_seen config o (turn config o t s) k i j ≡ true)
          ⊎ Spawned ts (turn config o t s) k i j u
    unfolding run
    earlier u h = elim (Bool-cases (is_done ((turn config o t s).threads u).phase)) [
      | inl now ↦
          let both =
            both_true (t == u) (is_holding (s.threads u).phase)
              (rw (turn-done t u s, h.0) at now) in
          inl (turn-seen config o t s k i j ok ∙ rw (==→≡ t u both.0, both.1, h.2) refl)
      | inr not_yet ↦ inr (not_yet, h.1, turn-lands t u s k i j ∙ h.2)
    ]

  -- Whatever the order in which goroutines take the steps of GetOrCreate(id).ProcessSpawn(ctx, x, y), on a
  -- coherent memory: a cell of a chunk, read through the map (from storage if the chunk is not active), is
  -- alive after them exactly when it was before, or one of the goroutines that became done among them spawns
  -- it. The memory stays coherent: each chunk has one entry, the gauge counts them, and every handle is that
  -- of the chunk in the map.
  pub threads-refines :
      (ts : List ℕ) (s : Memory) (k : ChunkId) (i j : ℕ)
      → IsCoherent config o s
      → IsCoherent config o (run config o ts s)
        × ((cell_seen config o (run config o ts s) k i j ≡ true)
            ↔ ((cell_seen config o s k i j ≡ true) ⊎ ((u : ℕ) × Spawned ts s k i j u)))
  unfolding run
  threads-refines [] s k i j ok = (
    ok,
    (
      λ h. inl h,
      λ h. elim h [
        | inl seen ↦ seen
        | inr (u, (before, after, here)) ↦ absurd (cc (sym before ∙ after))
      ],
    ),
  )
  threads-refines (t ∷ ts) s k i j ok =
      let s' = turn config o t s in
      let rest = threads-refines ts s' k i j (turn-IsCoherent config o t s ok) in
      (
        rest.0,
        (
          λ h. elim (rest.1.0 h) [
            | inl seen ↦ step-seen t ts s ok k i j seen
            | inr (u, spawned) ↦ inr (u, later t ts s ok k i j u spawned)
          ],
          λ h. elim h [
            | inl seen ↦ rest.1.1 (inl (turn-seen config o t s k i j ok ∙ rw seen (ground arith)))
            | inr (u, spawned) ↦ elim (earlier t ts s ok k i j u spawned) [
              | inl seen ↦ rest.1.1 (inl seen)
              | inr again ↦ rest.1.1 (inr (u, again))
            ]
          ],
        ),
      )

  -- A goroutine that has begun GetOrCreate(id).ProcessSpawn(ctx, x, y), with x and y inside the chunk, on a
  -- coherent memory: after a schedule that gives it at least four turns it is done, and its cell is alive in
  -- the chunk that the map has for that ID, whatever the other goroutines do in between.
  pub four_turns-cell_seen :
      (ts : List ℕ) (s : Memory) (u : ℕ)
      → IsCoherent config o s
      → (s.threads u).phase ≡ begun
      → in_chunk (s.threads u).x (s.threads u).y ≡ true
      → 4 ≤ turns_of u ts
      → (is_done ((run config o ts s).threads u).phase ≡ true)
        × (cell_seen config o (run config o ts s) (s.threads u).id (s.threads u).x (s.threads u).y
            ≡ true)
  four_turns-cell_seen ts s u ok phase inside h =
      let th = s.threads u in
      let finished = four_turns config o u ts s h in
      let own : lands th th.id th.x th.y ≡ true =
        rw ((id_eq_iff th.id th.id).1 refl, inside, ≡→== th.x th.x refl, ≡→== th.y th.y refl)
          refl in
      (
        finished,
        (threads-refines ts s th.id th.x th.y ok).1.1 (inr (u, (rw phase refl, finished, own))),
      )

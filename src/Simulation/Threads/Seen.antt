-- ===== src/Simulation/Threads/Seen.antt =====
-- The cells that goroutines spawn, seen through the map: none is lost, whatever the order of their steps.
use distributed_game_of_life.Prelude.{
  ℕ, ◌+◌, ◌≡◌, refl, sym, ap, ◌∙◌, arith, Bool, false, ◌&&◌, ◌||◌, ◌==◌, ==→≡, ≡→==, Option, none,
  some, Bool-cases, Option-cases, inl, inr,
}
use distributed_game_of_life.Prelude.Update.{write, write_other, write_own}
use distributed_game_of_life.Simulation.Chunk.{ChunkId, Chunk, add_cell}
use distributed_game_of_life.Simulation.Chunk.Cells.{cell, in_chunk, add_cell_lem}
use distributed_game_of_life.Simulation.ChunkMap.{id_eq, id_eq_iff, find, put, find-put}
use distributed_game_of_life.Simulation.Registry.{Config}
use distributed_game_of_life.Simulation.Threads.{
  Phase, begun, missed, done, made, holding, Thread, Memory, go_on, insert_made, loaded_chunk,
  advance, turn, rows_seen,
}
use distributed_game_of_life.Simulation.Threads.Coherence.{IsCoherent}
use distributed_game_of_life.Simulation.Threads.Moves.{is_holding}

-- The cell that the goroutine spawns is this one of this chunk.
abbrev pub lands : Thread → ChunkId → ℕ → ℕ → Bool
lands th k i j = id_eq th.id k && (in_chunk th.x th.y && th.x == i && th.y == j)

module _ (config : Config) (o : config.Outside) where
  -- A cell, as the map shows it.
  abbrev pub cell_seen : Memory → ChunkId → ℕ → ℕ → Bool
  cell_seen s k i j = cell (rows_seen config o k s) i j

  module _ (t : ℕ) (s : Memory) (ok : IsCoherent config o s) (k : ChunkId) where
    missed-seen :
        (c : Chunk) (p : Phase)
        → rows_seen config o k
            (go_on t p (record s { heap = write s.next c s.heap; next = s.next + 1 }))
          ≡ rows_seen config o k s
    unfolding rows_seen
    missed-seen c p = elim (Option-cases (find k s.entries)) [
      | inl absent ↦ rw absent refl
      | inr (a, there) ↦
          let e = ok.entry k a there in
          rw there
            (ap (λ (d : Chunk). d.rows) (write_other s.next a c s.heap (ground (arith, e.below))))
    ]

    inserted-seen :
        (a : ℕ) (p : Phase) (gauge : ℕ)
        → (s.threads t).phase ≡ made a
        → find (s.threads t).id s.entries ≡ none
        → rows_seen config o k (
            go_on t p (record s {
              entries = put (s.threads t).id a s.entries;
              active_chunk_actors = gauge;
            }))
          ≡ rows_seen config o k s
    unfolding rows_seen
    inserted-seen a p gauge phase absent =
        let id = (s.threads t).id in
        let mine = rw phase at (ok.phases t) in
        rw (find-put id k a s.entries) (elim (Bool-cases (id_eq id k)) [
          | inl same ↦
              rw (same, sym ((id_eq_iff id k).0 same), rows_seen, absent)
                (ap (λ (d : Chunk). d.rows) mine.1)
          | inr apart ↦ rw apart refl
        ])

    insert_made-seen :
        (a : ℕ) (found : Option ℕ)
        → (s.threads t).phase ≡ made a
        → find (s.threads t).id s.entries ≡ found
        → rows_seen config o k (insert_made t (s.threads t).id a found s) ≡ rows_seen config o k s
    unfolding insert_made rows_seen
    insert_made-seen a none phase absent =
        inserted-seen a (holding a) (s.active_chunk_actors + 1) phase absent
    insert_made-seen a (some b) phase found = refl

    -- Another chunk has another address.
    apart_addresses :
        (id : ChunkId) (a b : ℕ)
        → find id s.entries ≡ some a
        → find k s.entries ≡ some b
        → id_eq id k ≡ false
        → (a == b) ≡ false
    apart_addresses id a b mine its apart = elim (Bool-cases (a == b)) [
      | inl same ↦
          let one = (ok.entry id a mine).same_id in
          let other = rw (sym (==→≡ a b same)) at ((ok.entry k b its).same_id) in
          absurd (cc (sym apart ∙ (id_eq_iff id k).1 (sym one ∙ other)))
      | inr apart_too ↦ apart_too
    ]

    spawned-seen :
        (a i j : ℕ)
        → (s.threads t).phase ≡ holding a
        → cell_seen
            (go_on t done (record s {
              heap = write a (add_cell (s.heap a) (s.threads t).x (s.threads t).y) s.heap;
            }))
            k
            i
            j
          ≡ (lands (s.threads t) k i j || cell_seen s k i j)
    unfolding rows_seen
    spawned-seen a i j phase =
        let id = (s.threads t).id in
        let c = add_cell (s.heap a) (s.threads t).x (s.threads t).y in
        let mine = rw phase at (ok.phases t) in
        elim (Bool-cases (id_eq id k)) [
          | inl same ↦
              let added =
                add_cell_lem (s.heap a) (s.threads t).x (s.threads t).y
                  (ok.entry id a mine).valid in
              rw (same, sym ((id_eq_iff id k).0 same), mine)
                (ap (λ (d : Chunk). cell d.rows i j) (write_own a a c s.heap (≡→== a a refl))
                  ∙ added.2 i j)
          | inr apart ↦ elim (Option-cases (find k s.entries)) [
            | inl absent ↦ rw (apart, absent) refl
            | inr (b, there) ↦
                rw (apart, there)
                  (ap (λ (d : Chunk). cell d.rows i j)
                    (write_other a b c s.heap (apart_addresses id a b mine there apart)))
          ]
        ]

    advance-seen :
        (p : Phase) (i j : ℕ)
        → (s.threads t).phase ≡ p
        → cell_seen (advance config o t (s.threads t) p s) k i j
          ≡ (is_holding p && lands (s.threads t) k i j || cell_seen s k i j)
    unfolding advance rows_seen
    advance-seen begun i j phase = refl
    advance-seen missed i j phase =
        ap (λ rows. cell rows i j)
          (missed-seen (loaded_chunk config o (s.threads t).id) (made s.next))
    advance-seen (made a) i j phase =
        ap (λ rows. cell rows i j) (insert_made-seen a (find (s.threads t).id s.entries) phase refl)
    advance-seen (holding a) i j phase = spawned-seen a i j phase
    advance-seen done i j phase = refl

  pub turn-seen :
      (t : ℕ) (s : Memory) (k : ChunkId) (i j : ℕ)
      → IsCoherent config o s
      → cell_seen (turn config o t s) k i j
        ≡ (is_holding (s.threads t).phase && lands (s.threads t) k i j || cell_seen s k i j)
  unfolding turn
  turn-seen t s k i j ok = advance-seen t s ok k (s.threads t).phase i j refl

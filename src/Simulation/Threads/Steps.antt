-- ===== src/Simulation/Threads/Steps.antt =====
-- Every step of a goroutine keeps the memory coherent.
use distributed_game_of_life.Prelude.{
  ℕ, ◌+◌, ◌≡◌, refl, sym, ap, ◌∙◌, arith, ◌==◌, ==→≡, ==→≢, ≡→==, Option, none, some, Bool-cases,
  inl, inr,
}
use mathlib.Core.Option.{some-injective}
use distributed_game_of_life.Prelude.Update.{write, write_other, write_own}
use distributed_game_of_life.Simulation.Chunk.{Chunk, add_cell}
use distributed_game_of_life.Simulation.Chunk.Cells.{add_cell_lem}
use distributed_game_of_life.Simulation.ChunkMap.{
  id_eq, id_eq_iff, find, put, find-put, put-DistinctKeys,
}
use distributed_game_of_life.Simulation.Registry.{Config}
use distributed_game_of_life.Simulation.Registry.Invariant.{hydrated-IsValid}
use distributed_game_of_life.Simulation.Threads.{
  Phase, begun, missed, done, made, holding, Memory, go_on, looked_up, insert_made, loaded_chunk,
  advance, turn,
}
use distributed_game_of_life.Simulation.Threads.Handles.{
  made-injective, length-put, looked_up-Ok, looked_up-ne-made, Ok-alloc, Ok-insert, Ok-write,
}
use distributed_game_of_life.Simulation.Threads.Coherence.{IsCoherent, go_on-phases, go_on-unshared}

module _ (config : Config) (o : config.Outside) where
  module _ (t : ℕ) (s : Memory) (ok : IsCoherent config o s) where
    begun-IsCoherent : IsCoherent config o (go_on t (looked_up (find (s.threads t).id s.entries)) s)
    begun-IsCoherent =
        let found = find (s.threads t).id s.entries in
        record {
          distinct = ok.distinct;
          counted = ok.counted;
          entry = ok.entry;
          phases =
              go_on-phases config o t (looked_up found) s
                (looked_up-Ok config o s.heap s.next s.entries (s.threads t).id found refl)
                (λ j other. ok.phases j);
          unshared =
              go_on-unshared config o t (looked_up found) s ok.unshared
                (λ u a other e h. looked_up-ne-made config o found a e);
        }

    missed-IsCoherent :
        (c : Chunk)
        → c ≡ loaded_chunk config o (s.threads t).id
        → IsCoherent config o
            (go_on t (made s.next) (record s { heap = write s.next c s.heap; next = s.next + 1 }))
    missed-IsCoherent c same =
        let s' = record s { heap = write s.next c s.heap; next = s.next + 1 } in
        record {
          distinct = ok.distinct;
          counted = ok.counted;
          entry = λ k a found.
              let e = ok.entry k a found in
              let kept = write_other s.next a c s.heap (ground (arith, e.below)) in
              record {
                below = omega (arith, e.below);
                same_id = rw kept (e.same_id);
                valid = rw kept (e.valid);
              };
          phases =
              go_on-phases config o t (made s.next) s'
                (
                  omega arith,
                  write_own s.next s.next c s.heap (≡→== s.next s.next refl) ∙ same,
                  λ k found. absurd (omega (arith, (ok.entry k s.next found).below)),
                )
                (λ j other.
                  Ok-alloc config o s (s.threads j).id (s.threads j).phase c (ok.phases j));
          unshared = go_on-unshared config o t (made s.next) s' ok.unshared (λ u a other e h.
              let below = (rw h at (ok.phases u)).0 in
              let fresh = made-injective s.next a e in absurd (omega (arith, below, fresh)));
        }

    inserted-IsCoherent :
        (a : ℕ)
        → (s.threads t).phase ≡ made a
        → find (s.threads t).id s.entries ≡ none
        → IsCoherent config o (
            go_on t (holding a) (record s {
              entries = put (s.threads t).id a s.entries;
              active_chunk_actors = s.active_chunk_actors + 1;
            }))
    inserted-IsCoherent a phase absent =
        let id = (s.threads t).id in
        let mine = rw phase at (ok.phases t) in
        let loaded = hydrated-IsValid config o id (config.load o id) refl in
        let s' = record s {
          entries = put id a s.entries;
          active_chunk_actors = s.active_chunk_actors + 1;
        } in
        record {
          distinct = put-DistinctKeys id a s.entries ok.distinct;
          counted = rw (length-put id a s.entries absent) (omega (arith, ok.counted));
          entry = λ k b found. elim (Bool-cases (id_eq id k)) [
            | inl same ↦
                let it = some-injective a b (rw (find-put id k a s.entries, same) at found) in
                rw (sym it, sym ((id_eq_iff id k).0 same))
                  (record {
                    below = mine.0;
                    same_id = ap (λ (c : Chunk). c.id) mine.1 ∙ loaded.0;
                    valid = rw (mine.1) (loaded.1);
                  })
            | inr apart ↦ ok.entry k b (rw (find-put id k a s.entries, apart) at found)
          ];
          phases =
              go_on-phases config o t (holding a) s'
                (find-put id id a s.entries ∙ rw ((id_eq_iff id id).1 refl) refl)
                (λ j other.
                  Ok-insert config o s id (s.threads j).id a (s.threads j).phase absent
                    (λ e. absurd (==→≢ t j other (ok.unshared t j a phase e))) (ok.phases j));
          unshared =
              go_on-unshared config o t (holding a) s' ok.unshared (λ u b other e h. absurd (cc e));
        }

    dropped-IsCoherent :
        (b : ℕ)
        → find (s.threads t).id s.entries ≡ some b
        → IsCoherent config o (go_on t (holding b) s)
    dropped-IsCoherent b found = record {
      distinct = ok.distinct;
      counted = ok.counted;
      entry = ok.entry;
      phases = go_on-phases config o t (holding b) s found (λ j other. ok.phases j);
      unshared =
          go_on-unshared config o t (holding b) s ok.unshared (λ u a other e h. absurd (cc e));
    }

    insert_made-IsCoherent :
        (a : ℕ) (found : Option ℕ)
        → (s.threads t).phase ≡ made a
        → find (s.threads t).id s.entries ≡ found
        → IsCoherent config o (insert_made t (s.threads t).id a found s)
    unfolding insert_made
    insert_made-IsCoherent a none phase absent = inserted-IsCoherent a phase absent
    insert_made-IsCoherent a (some b) phase found = dropped-IsCoherent b found

    spawned-IsCoherent :
        (a x y : ℕ)
        → (s.threads t).phase ≡ holding a
        → IsCoherent config o
            (go_on t done (record s { heap = write a (add_cell (s.heap a) x y) s.heap }))
    spawned-IsCoherent a x y phase =
        let id = (s.threads t).id in
        let there = rw phase at (ok.phases t) in
        let c = add_cell (s.heap a) x y in
        let s' = record s { heap = write a c s.heap } in
        record {
          distinct = ok.distinct;
          counted = ok.counted;
          entry = λ k b found.
              let e = ok.entry k b found in
              elim (Bool-cases (a == b)) [
                | inl same ↦
                    let added = add_cell_lem (s.heap a) x y (ok.entry id a there).valid in
                    let own = write_own a b c s.heap same in
                    record {
                      below = e.below;
                      same_id = rw own (added.1 ∙ rw (==→≡ a b same) (e.same_id));
                      valid = rw own (added.0);
                    }
                | inr other ↦
                    let kept = write_other a b c s.heap other in
                    record {
                      below = e.below;
                      same_id = rw kept (e.same_id);
                      valid = rw kept (e.valid);
                    }
              ];
          phases = go_on-phases config o t done s' tt (λ j other.
              Ok-write config o s id (s.threads j).id a c (s.threads j).phase there (ok.phases j));
          unshared = go_on-unshared config o t done s' ok.unshared (λ u b other e h. absurd (cc e));
        }

    advance-IsCoherent :
        (p : Phase)
        → (s.threads t).phase ≡ p
        → IsCoherent config o (advance config o t (s.threads t) p s)
    unfolding advance
    advance-IsCoherent begun phase = begun-IsCoherent
    advance-IsCoherent missed phase =
        missed-IsCoherent (loaded_chunk config o (s.threads t).id) refl
    advance-IsCoherent (made a) phase =
        insert_made-IsCoherent a (find (s.threads t).id s.entries) phase refl
    advance-IsCoherent (holding a) phase =
        spawned-IsCoherent a (s.threads t).x (s.threads t).y phase
    advance-IsCoherent done phase = ok

  pub turn-IsCoherent :
      (t : ℕ) (s : Memory) → IsCoherent config o s → IsCoherent config o (turn config o t s)
  unfolding turn
  turn-IsCoherent t s ok = advance-IsCoherent t s ok (s.threads t).phase refl

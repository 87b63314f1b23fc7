-- ===== src/Tests/Threads.antt =====
-- Goroutines that spawn cells in one chunk at once.
use distributed_game_of_life.Prelude.{
  ℕ, ◌≡◌, ◌↔◌, ◌⊎◌, refl, arith, true, List, [], ◌∷◌, ◌==◌, if◌then◌else◌,
}
use distributed_game_of_life.Simulation.Chunk.{new_chunk}
use distributed_game_of_life.Simulation.ChunkMap.{find}
use distributed_game_of_life.Simulation.Threads.{
  begun, holding, Memory, evict, turn, run, loaded_chunk,
}
use distributed_game_of_life.Simulation.Threads.Coherence.{IsCoherent}
use distributed_game_of_life.Simulation.Threads.Moves.{is_done}
use distributed_game_of_life.Simulation.Threads.Seen.{cell_seen}
use distributed_game_of_life.Simulation.Threads.Spawned.{
  Spawned, threads-refines, four_turns-cell_seen,
}
use distributed_game_of_life.Simulation.Threads.Evicted.{turn-evict}
use distributed_game_of_life.Tests.Registry.{alone, near_origin}

-- No chunk is active, and every goroutine is about to spawn a cell in the same one.
abbrev racing : Memory
racing = record {
  heap = λ a. new_chunk (near_origin.x) (near_origin.y);
  next = 0;
  entries = [];
  active_chunk_actors = 0;
  threads = λ t. record { id = near_origin; x = 5; y = if t == 0 then 6 else 7; phase = begun };
}

racing-IsCoherent : IsCoherent alone 0 racing
unfolding find
racing-IsCoherent = record {
  distinct = tt;
  counted = refl;
  entry = λ k a found. absurd (cc found);
  phases = λ t. tt;
  unshared = λ t u a it other. absurd (cc it);
}

-- Both goroutines find no chunk, and both make one.
abbrev both_miss : List ℕ
both_miss = 0 ∷ 1 ∷ 1 ∷ 0 ∷ 1 ∷ 0 ∷ 0 ∷ 1 ∷ []

threads-refines_example :
    IsCoherent alone 0 (run alone 0 both_miss racing)
    × ((cell_seen alone 0 (run alone 0 both_miss racing) near_origin 5 7 ≡ true) ↔ (
        (cell_seen alone 0 racing near_origin 5 7 ≡ true)
        ⊎ ((u : ℕ) × Spawned alone 0 both_miss racing near_origin 5 7 u)))
threads-refines_example = threads-refines alone 0 both_miss racing near_origin 5 7 racing-IsCoherent

four_turns-cell_seen_example :
    (is_done ((run alone 0 both_miss racing).threads 0).phase ≡ true)
    × (cell_seen alone 0 (run alone 0 both_miss racing) near_origin 5 6 ≡ true)
four_turns-cell_seen_example =
    four_turns-cell_seen alone 0 both_miss racing 0 racing-IsCoherent refl refl (omega arith)

-- The first goroutine has the handle of the chunk.
unfoldable waiting : Memory
unfolding run
waiting = run alone 0 (0 ∷ 0 ∷ 0 ∷ []) racing

waiting-IsCoherent : IsCoherent alone 0 waiting
unfolding waiting
waiting-IsCoherent =
    (threads-refines alone 0 (0 ∷ 0 ∷ 0 ∷ []) racing near_origin 5 7 racing-IsCoherent).0

waiting-holding : (waiting.threads 0).phase ≡ holding 0
unfolding waiting find
waiting-holding = refl

waiting-kept : loaded_chunk alone 1 (waiting.threads 0).id ≡ waiting.heap 0
unfolding waiting find
waiting-kept = refl

turn-evict_example :
    let s = turn alone 1 0 (evict (waiting.threads 0).id waiting) in
    (is_done (s.threads 0).phase ≡ true)
    × ((i j : ℕ)
        → cell_seen alone 1 s (waiting.threads 0).id i j
          ≡ cell_seen alone 0 waiting (waiting.threads 0).id i j)
turn-evict_example = turn-evict alone 0 0 0 waiting waiting-IsCoherent waiting-holding waiting-kept

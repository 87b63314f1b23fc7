-- ===== src/Simulation/Threads/Moves.antt =====
-- How a goroutine gets on: four of its own steps, whatever the others do.
use distributed_game_of_life.Prelude.{
  ℕ, ◌+◌, ◌≡◌, ◌≤◌, refl, sym, arith, min, Bool, true, false, ◌||◌, ◌==◌, ==→≡, List, [], ◌∷◌,
  Option, none, some, Bool-cases, inl, inr, one_if,
}
use distributed_game_of_life.Prelude.Update.{write}
use distributed_game_of_life.Simulation.ChunkMap.{find}
use distributed_game_of_life.Simulation.Registry.{Config}
use distributed_game_of_life.Simulation.Threads.{
  Phase, begun, missed, done, made, holding, Memory, looked_up, insert_made, advance, turn, run,
}

abbrev pub is_done : Phase → Bool
is_done done = true
is_done _ = false

abbrev pub is_holding : Phase → Bool
is_holding (holding a) = true
is_holding _ = false

-- The steps that are behind a goroutine, at least.
abbrev rank : Phase → ℕ
rank begun = 0
rank missed = 1
rank (made a) = 2
rank (holding a) = 3
rank done = 4

-- One goroutine gets on, and the others stay as they are.
pub record IsMove (t : ℕ) (s s' : Memory) : Type 0 where
  pub to : Phase
  pub threads : (u : ℕ) → s'.threads u ≡ write t (record (s.threads t) { phase = to }) s.threads u
  pub finishes : is_done to ≡ (is_done (s.threads t).phase || is_holding (s.threads t).phase)
  pub nearer : min 4 (rank (s.threads t).phase + 1) ≤ rank to

is_done-looked_up : (found : Option ℕ) → is_done (looked_up found) ≡ false
is_done-looked_up none = refl
is_done-looked_up (some a) = refl

rank-looked_up : (found : Option ℕ) → 1 ≤ rank (looked_up found)
rank-looked_up none = omega arith
rank-looked_up (some a) = omega arith

-- How often a goroutine has its turn.
abbrev pub turns_of : ℕ → List ℕ → ℕ
turns_of t [] = 0
turns_of t (u ∷ ts) = one_if (u == t) + turns_of t ts

rank_done : (p : Phase) → 4 ≤ rank p → is_done p ≡ true
rank_done begun h = absurd (omega (arith, h))
rank_done missed h = absurd (omega (arith, h))
rank_done (made a) h = absurd (omega (arith, h))
rank_done (holding a) h = absurd (omega (arith, h))
rank_done done h = refl

module _ (config : Config) (o : config.Outside) where
  insert_made-IsMove :
      (t a : ℕ) (found : Option ℕ) (s : Memory)
      → (s.threads t).phase ≡ made a
      → IsMove t s (insert_made t (s.threads t).id a found s)
  unfolding insert_made
  insert_made-IsMove t a none s phase = record {
    to = holding a;
    threads = λ u. refl;
    finishes = rw phase refl;
    nearer = rw phase (omega arith);
  }
  insert_made-IsMove t a (some b) s phase = record {
    to = holding b;
    threads = λ u. refl;
    finishes = rw phase refl;
    nearer = rw phase (omega arith);
  }

  stay : (t u : ℕ) (s : Memory) → s.threads u ≡ write t (s.threads t) s.threads u
  stay t u s = elim (Bool-cases (t == u)) [
    | inl same ↦ rw (same, ==→≡ t u same) refl
    | inr other ↦ rw other refl
  ]

  advance-IsMove :
      (t : ℕ) (s : Memory) (p : Phase)
      → (s.threads t).phase ≡ p
      → IsMove t s (advance config o t (s.threads t) p s)
  unfolding advance
  advance-IsMove t s begun phase =
      let found = find (s.threads t).id s.entries in
      record {
        to = looked_up found;
        threads = λ u. refl;
        finishes = rw phase (is_done-looked_up found);
        nearer = rw phase (omega (arith, rank-looked_up found));
      }
  advance-IsMove t s missed phase = record {
    to = made s.next;
    threads = λ u. refl;
    finishes = rw phase refl;
    nearer = rw phase (omega arith);
  }
  advance-IsMove t s (made a) phase =
      insert_made-IsMove t a (find (s.threads t).id s.entries) s phase
  advance-IsMove t s (holding a) phase = record {
    to = done;
    threads = λ u. refl;
    finishes = rw phase refl;
    nearer = rw phase (omega arith);
  }
  advance-IsMove t s done phase = record {
    to = (s.threads t).phase;
    threads = λ u. stay t u s;
    finishes = rw phase refl;
    nearer = rw phase (omega arith);
  }

  pub turn-IsMove : (t : ℕ) (s : Memory) → IsMove t s (turn config o t s)
  unfolding turn
  turn-IsMove t s = advance-IsMove t s (s.threads t).phase refl

  turn-rank :
      (t u : ℕ) (s : Memory)
      → min 4 (rank (s.threads u).phase + one_if (t == u))
        ≤ rank ((turn config o t s).threads u).phase
  turn-rank t u s =
      let m = turn-IsMove t s in
      elim (Bool-cases (t == u)) [
        | inl same ↦ rw (m.threads u, same, sym (==→≡ t u same)) (m.nearer)
        | inr other ↦ rw (m.threads u, other) (omega arith)
      ]

  run-rank :
      (u : ℕ) (ts : List ℕ) (s : Memory)
      → min 4 (rank (s.threads u).phase + turns_of u ts)
        ≤ rank ((run config o ts s).threads u).phase
  unfolding run
  run-rank u [] s = omega arith
  run-rank u (t ∷ ts) s =
      let first = turn-rank t u s in
      let rest = run-rank u ts (turn config o t s) in omega (arith, first, rest)

  -- A goroutine that has had four turns is done.
  pub four_turns :
      (u : ℕ) (ts : List ℕ) (s : Memory)
      → 4 ≤ turns_of u ts
      → is_done ((run config o ts s).threads u).phase ≡ true
  four_turns u ts s h =
      rank_done ((run config o ts s).threads u).phase (omega (arith, h, run-rank u ts s))

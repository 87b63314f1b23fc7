-- ===== src/Tests/Ratelimit.antt =====
-- Tests of the model of ratelimit/: a Redis that is a function from keys to buckets.
use distributed_game_of_life.Prelude.{
  ℕ, ◌+◌, ◌-◌, ◌≡◌, refl, sym, arith, true, ◌&&◌, ◌||◌, one_if, Bool-cases, inl, inr, if◌then◌else◌,
  Option, none, some,
}
use mathlib.Core.Option.{some-injective}
use distributed_game_of_life.Ratelimit.{
  Bucket, Key, global, player, key_eq, Redis, refill, time_to_live, allow_mutation, drain_n,
}
use distributed_game_of_life.Ratelimit.Effects.{tokens_at, IsTimed}
use distributed_game_of_life.Ratelimit.Bound.{
  IsLapse, History, start, mutated, drew, lapsed, let_through, let_through-bound,
}
use distributed_game_of_life.Prelude.{◌≤◌, ◌*◌, false}
use distributed_game_of_life.Ratelimit.Charges.{
  allows, drains, key_eq→≡, allow_mutation_lem, allow_mutation_refused, drain_n_lem,
}

abbrev Buckets : Type 0
Buckets = Key → Option Bucket

abbrev more : ℕ → Option Bucket → Option Bucket
more n none = none
more n (some b) = some (record b { tokens = b.tokens + n })

abbrev raised : Buckets → Key → ℕ → Buckets
raised s k n j = if key_eq k j then more n (s j) else s j

pub more_lem :
    (s : Buckets) (k j : Key) (n : ℕ) (b : Bucket)
    → s k ≡ some b
    → raised s k n j ≡ (if key_eq k j then some (record b { tokens = b.tokens + n }) else s j)
more_lem s k j n b e = elim (Bool-cases (key_eq k j)) [
  | inl same ↦ rw (same, ← key_eq→≡ k j same, e) refl
  | inr other ↦ rw other refl
]

abbrev pub buckets : Redis
buckets = record {
  Store = Buckets;
  hmget = λ s k. s k;
  hmset = λ s k b j. if key_eq k j then some b else s j;
  expire = λ s k ttl. s;
  hincrby = raised;
  hmget-hmset = λ s k j b. refl;
  hmget-expire = λ s k j ttl lasting. refl;
  hmget-hincrby = more_lem;
}

-- The player has spent all tokens at time 100; nobody else has a bucket.
abbrev spent : Bucket
spent = record { tokens = 0; last_refill = 100 }

abbrev pub after_spending : Buckets
after_spending global = none
after_spending (player name) = some spent

after_spending-IsTimed : IsTimed buckets after_spending 100
after_spending-IsTimed global b e = absurd (cc e)
after_spending-IsTimed (player name) b e = rw (sym (some-injective spent b e)) (omega arith)

drain_test : (drain_n buckets true after_spending "ada" 108 30).0 ≡ some 30
unfolding drain_n
drain_test = refl

allow_mutation_lem_example :
    ((allow_mutation buckets true after_spending "ada" 101).0
      ≡ some (allows buckets after_spending "ada" 101))
    × (tokens_at buckets (allow_mutation buckets true after_spending "ada" 101).1 (player "ada") 101
        ≡ tokens_at buckets after_spending (player "ada") 101
          - one_if (
              allows buckets after_spending "ada" 101
              && (key_eq (player "ada") (player "ada") || key_eq global (player "ada"))))
allow_mutation_lem_example = allow_mutation_lem buckets after_spending "ada" 101 (player "ada")

allow_mutation_refused_example :
    tokens_at buckets (allow_mutation buckets true after_spending "ada" 100).1 global 102
    ≡ tokens_at buckets after_spending global 102
unfolding refill
allow_mutation_refused_example =
    allow_mutation_refused buckets after_spending "ada" 100 102 global after_spending-IsTimed
      (omega arith) refl

drain_n_lem_example :
    ((drain_n buckets true after_spending "ada" 108 30).0
      ≡ some (drains buckets after_spending "ada" 108 30))
    × (tokens_at buckets (drain_n buckets true after_spending "ada" 108 30).1 (player "ada") 108
        ≡ tokens_at buckets after_spending (player "ada") 108
          - (if key_eq (player "ada") (player "ada")
              then drains buckets after_spending "ada" 108 30
              else one_if (key_eq global (player "ada"))))
drain_n_lem_example = drain_n_lem buckets after_spending "ada" 108 30 (player "ada")

abbrev after_lapse : Buckets
after_lapse j = if key_eq (player "bob") j then none else after_spending j

bob-IsLapse : IsLapse buckets after_spending 111 (player "bob") after_lapse
unfolding time_to_live
bob-IsLapse = record {
  old = λ b e. rw (sym (some-injective spent b e)) (omega arith);
  gone = λ j. refl;
}

abbrev after_cell : Buckets
after_cell = (allow_mutation buckets true after_lapse "ada" 112).1

abbrev after_failure : Buckets
after_failure = (allow_mutation buckets false after_cell "ada" 112).1

-- Bob's key expires, Ada places a cell, cannot reach Redis, and drains.
abbrev busy :
    History buckets after_spending 100 (drain_n buckets true after_failure "ada" 113 30).1 113
busy =
    drew
      (mutated
        (mutated (lapsed start (player "bob") 111 after_lapse (omega arith) bob-IsLapse) true "ada"
          112 (omega arith))
        false "ada" 112 (omega arith))
      true "ada" 30 113 (omega arith)

let_through-bound_example : let_through buckets (player "ada") busy ≤ 50 + (113 - 100) * 5
let_through-bound_example = let_through-bound buckets (player "ada") busy

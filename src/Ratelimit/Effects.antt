-- ===== src/Ratelimit/Effects.antt =====
-- What the two scripts do to the buckets, seen through the tokens that are available.
use distributed_game_of_life.Prelude.{
  ℕ, ◌-◌, ◌≡◌, ◌≤◌, min, arith, refl, Option, some, leb, ltb, if◌then◌else◌, true, false,
  Bool-cases, inl, inr, ◌∙◌,
}
use Prim.Native.String.{String}
use distributed_game_of_life.Ratelimit.{
  Redis, Bucket, Params, Key, global, player, key_eq, global_params, player_params, refill,
  time_to_live, save_bucket, check_and_decrement, token_bucket, drain_script,
}
use distributed_game_of_life.Ratelimit.Refill.{available}

-- The parameters that both scripts are called with.
abbrev pub params : Key → Params
params global = global_params
params (player id) = player_params

module _ (redis : Redis) where
  open redis use {Store, hmget, hmset, expire, hincrby}

  -- The tokens that a key has at a time.
  abbrev pub tokens_at : Store → Key → ℕ → ℕ
  tokens_at s k now = available (params k) now (hmget s k)

  -- No bucket was filled after `now`.
  abbrev pub IsTimed : Store → ℕ → Type 0
  IsTimed s now = (k : Key) (b : Bucket) → hmget s k ≡ some b → b.last_refill ≤ now

  -- A key's bucket at `now`, as the scripts read it.
  abbrev pub current : Store → Key → ℕ → Bucket
  current s k now = refill (params k) now (hmget s k)

  abbrev pub taken : Store → Key → ℕ → ℕ → Bucket
  taken s k now n = record (current s k now) { tokens = tokens_at s k now - n }

  pub hmget-save_bucket :
      (s : Store) (k j : Key) (p : Params) (b : Bucket)
      → hmget (save_bucket redis s k p b) j ≡ (if key_eq k j then some b else hmget s j)
  unfolding save_bucket time_to_live
  hmget-save_bucket s k j p b =
      redis.hmget-expire (hmset s k b) k j (time_to_live p) (omega arith)
      ∙ redis.hmget-hmset s k j b

  -- The store after both buckets have been charged.
  abbrev pub charged : Store → String → ℕ → ℕ → ℕ → Store
  charged s id now g n =
      save_bucket redis (save_bucket redis s global global_params (taken s global now g))
        (player id) player_params (taken s (player id) now n)

  -- The store after the global token was given back.
  abbrev pub returned : Store → ℕ → Store
  returned s now =
      hincrby (save_bucket redis s global global_params (taken s global now 1)) global 1

  player_untouched :
      (s : Store) (id : String) (p : Params) (b : Bucket)
      → hmget (save_bucket redis s global p b) (player id) ≡ hmget s (player id)
  player_untouched s id p b = hmget-save_bucket s global (player id) p b

  -- The branches of check_and_decrement, on what is stored under the key.
  check_lem :
      (s : Store) (k : Key) (now : ℕ) (o : Option Bucket)
      → hmget s k ≡ o
      → check_and_decrement redis s k (params k) now ≡ (
          let b = refill (params k) now o in
          if leb 1 b.tokens
          then (true, save_bucket redis s k (params k) (record b { tokens = b.tokens - 1 }))
          else (false, s))
  unfolding check_and_decrement
  check_lem s k now o e = rw e refl

  -- The branches of luaTokenBucket.
  pub token_bucket_lem :
      (s : Store) (id : String) (now : ℕ)
      → token_bucket redis s id now ≡ (
          if leb 1 (tokens_at s global now)
          then (if leb 1 (tokens_at s (player id) now)
              then (1, charged s id now 1 1)
              else (0, returned s now))
          else (0, s))
  unfolding token_bucket
  token_bucket_lem s id now = elim (Bool-cases (leb 1 (tokens_at s global now))) [
    | inl some_left ↦
        let first = check_lem s global now (hmget s global) refl in
        let s1 = save_bucket redis s global global_params (taken s global now 1) in
        let second =
          check_lem s1 (player id) now (hmget s (player id))
            (player_untouched s id global_params (taken s global now 1)) in
        rw (token_bucket, first, some_left, second)
          (elim (Bool-cases (leb 1 (tokens_at s (player id) now))) [
            | inl player_left ↦ rw player_left refl
            | inr player_empty ↦ rw player_empty refl
          ])
    | inr none_left ↦
        let first = check_lem s global now (hmget s global) refl in
        rw (token_bucket, first, none_left) refl
  ]

  -- The branches of luaDrainN.
  pub drain_script_lem :
      (s : Store) (id : String) (now n : ℕ)
      → drain_script redis s id now n ≡ (
          if ltb (tokens_at s global now) 1 then (0, s) else (
            min n (tokens_at s (player id) now),
            charged s id now 1 (min n (tokens_at s (player id) now)),
          ))
  unfolding drain_script
  drain_script_lem s id now n = rw (player_untouched s id global_params (taken s global now 1)) refl

-- ===== src/Ratelimit.antt =====
-- ratelimit/rate_limiter.go: the two token-bucket scripts, line by line, and the Limiter's methods. The
-- scripts run atomically inside Redis, which is a parameter: a store of hashes with the commands that
-- the scripts call. All quantities of the scripts are whole numbers.
pub mod Refill
pub mod Effects
pub mod Charges
pub mod Bound
use distributed_game_of_life.Prelude.{
  ℕ, ◌+◌, ◌-◌, ◌*◌, ◌/◌, ◌%◌, ◌≡◌, ◌≢◌, ◌<◌, ◌≤◌, min, max, Bool, true, false,
}
use distributed_game_of_life.Prelude.{
  leb, ltb, ◌==◌, if◌then◌else◌, Option, none, some, List, [], ◌∷◌,
}
use Prim.Native.String.{String}
use text.Mathlib.Text.{◌==◌ as str_eq}

-- The fields "tokens" and "last_refill" of a hash.
pub record Bucket : Type 0 where
  pub tokens : ℕ
  pub last_refill : ℕ

-- The keys "rate_limit:global" and "rate_limit:player:" .. playerID, no two of which are equal texts.
pub data Key : Type 0 where
  global : Key
  player : String → Key

abbrev pub key_eq : Key → Key → Bool
key_eq global global = true
key_eq (player a) (player b) = str_eq a b
key_eq _ _ = false

-- The commands that the scripts call. `hmget` reads both fields, of a key that may be missing; `expire`
-- sets a time to live, which has no effect at once; `hincrby` adds to "tokens" of a key that exists.
pub record Redis : Type 1 where
  pub Store : Type 0
  pub hmget : Store → Key → Option Bucket
  pub hmset : Store → Key → Bucket → Store
  pub expire : Store → Key → ℕ → Store
  pub hincrby : Store → Key → ℕ → Store
  pub hmget-hmset :
      (s : Store) (k j : Key) (b : Bucket)
      → hmget (hmset s k b) j ≡ (if key_eq k j then some b else hmget s j)
  pub hmget-expire :
      (s : Store) (k j : Key) (ttl : ℕ) → 0 < ttl → hmget (expire s k ttl) j ≡ hmget s j
  pub hmget-hincrby :
      (s : Store) (k j : Key) (n : ℕ) (b : Bucket)
      → hmget s k ≡ some b
      → hmget (hincrby s k n) j
        ≡ (if key_eq k j then some (record b { tokens = b.tokens + n }) else hmget s j)

-- A script's arguments for one bucket.
pub record Params : Type 0 where
  pub capacity : ℕ
  pub refill_rate : ℕ

abbrev pub global_params : Params
global_params = record { capacity = 10000; refill_rate = 2000 }

abbrev pub player_params : Params
player_params = record { capacity = 50; refill_rate = 5 }

-- The script's local function `refill`, and the first part of `check_and_decrement`.
unfoldable pub refill : Params → ℕ → Option Bucket → Bucket
refill p now none = record { tokens = p.capacity; last_refill = now }
refill p now (some b) =
    let added = (now - b.last_refill) * p.refill_rate in
    record {
      tokens = min p.capacity (b.tokens + added);
      last_refill = if ltb 0 added then now else b.last_refill;
    }

-- math.ceil(capacity / refill_rate) + 1
unfoldable pub time_to_live : Params → ℕ
time_to_live p = (p.capacity + p.refill_rate - 1) / p.refill_rate + 1

module _ (redis : Redis) where
  open redis use {Store, hmget, hmset, expire, hincrby}

  -- HMSET and EXPIRE
  unfoldable pub save_bucket : Store → Key → Params → Bucket → Store
  unfolding time_to_live
  save_bucket s k p b = expire (hmset s k b) k (time_to_live p)

  unfoldable pub check_and_decrement : Store → Key → Params → ℕ → Bool × Store
  unfolding refill save_bucket
  check_and_decrement s k p now =
      let b = refill p now (hmget s k) in
      if leb 1 b.tokens
      then (true, save_bucket s k p (record b { tokens = b.tokens - 1 }))
      else (false, s)

  -- luaTokenBucket
  unfoldable pub token_bucket : Store → String → ℕ → ℕ × Store
  unfolding check_and_decrement
  token_bucket s id now =
      let (global_ok, s1) = check_and_decrement s global global_params now in
      let (player_ok, s2) = check_and_decrement s1 (player id) player_params now in
      if global_ok then (if player_ok then (1, s2) else (0, hincrby s2 global 1)) else (0, s1)

  -- luaDrainN
  unfoldable pub drain_script : Store → String → ℕ → ℕ → ℕ × Store
  unfolding refill save_bucket
  drain_script s id now n =
      let g = refill global_params now (hmget s global) in
      let s1 = save_bucket s global global_params (record g { tokens = g.tokens - 1 }) in
      let p = refill player_params now (hmget s1 (player id)) in
      let consumed = min n p.tokens in
      let s2 =
        save_bucket s1 (player id) player_params (record p { tokens = p.tokens - consumed }) in
      if ltb g.tokens 1 then (0, s) else (consumed, s2)

  -- client.Eval(…).Int(): `none` is an error of the connection, on which the script has not run.
  abbrev pub eval : Bool → Store → ℕ × Store → Option ℕ × Store
  eval true s (n, s') = (some n, s')
  eval false s (n, s') = (none, s)

  abbrev allowed : Option ℕ × Store → Option Bool × Store
  allowed (none, s) = (none, s)
  allowed (some n, s) = (some (n == 1), s)

  -- AllowMutation; `none` is its error.
  unfoldable pub allow_mutation : Bool → Store → String → ℕ → Option Bool × Store
  unfolding token_bucket
  allow_mutation connected s id now = allowed (eval connected s (token_bucket s id now))

  -- DrainN; `none` is its error.
  unfoldable pub drain_n : Bool → Store → String → ℕ → ℕ → Option ℕ × Store
  unfolding drain_script
  drain_n connected s id now n = eval connected s (drain_script s id now n)

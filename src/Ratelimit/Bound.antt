-- ===== src/Ratelimit/Bound.antt =====
-- How much the limiter lets through over time, whatever calls are made and whatever keys expire.
use distributed_game_of_life.Prelude.{
  ℕ, ◌+◌, ◌-◌, ◌*◌, ◌≡◌, ◌<◌, ◌≤◌, arith, refl, ap, Option, none, some, ltb, if◌then◌else◌, Bool,
  true, false, ◌&&◌, ◌||◌, Bool-cases, inl, inr, one_if,
}
use Prim.Native.String.{String}
use native.Mathlib.Nat.{mul-le-mul_right}
use distributed_game_of_life.Ratelimit.{
  Redis, Bucket, Params, Key, global, player, key_eq, refill, time_to_live, allow_mutation, drain_n,
}
use distributed_game_of_life.Ratelimit.Refill.{available, available-le-capacity, refill_expired}
use distributed_game_of_life.Ratelimit.Effects.{params, tokens_at}
use distributed_game_of_life.Ratelimit.Charges.{
  key_eq→≡, allows, drains, allow_mutation_lem, drain_n_lem,
}

-- What an answer of AllowMutation or DrainN to the player shows to have been let through, for a key: the
-- player's own tokens, and one of the global ones.
abbrev pub granted : Key → String → Option Bool → ℕ
granted k id (some true) = one_if (key_eq (player id) k || key_eq global k)
granted k id _ = 0

abbrev pub drained : Key → String → Option ℕ → ℕ
drained k id none = 0
drained k id (some n) = if key_eq (player id) k then n else one_if (key_eq global k && ltb 0 n)

available_later :
    (p : Params) (now later : ℕ) (o : Option Bucket)
    → now ≤ later
    → available p later o ≤ available p now o + (later - now) * p.refill_rate
unfolding refill
available_later p now later none order = omega arith
available_later p now later (some b) order =
    let gap : later - b.last_refill ≤ (now - b.last_refill) + (later - now) = omega arith in
    let scaled = mul-le-mul_right p.refill_rate gap in omega (arith, scaled)

-- A bucket that has expired counts as a full one before and after.
available_lapsed :
    (p : Params) (now : ℕ) (o : Option Bucket)
    → 0 < p.refill_rate
    → ((b : Bucket) → o ≡ some b → b.last_refill + time_to_live p ≤ now)
    → available p now none ≤ available p now o
available_lapsed p now none rate old = omega arith
available_lapsed p now (some b) rate old =
    let same = ap (λ (c : Bucket). c.tokens) (refill_expired p now b rate (old b refl)) in
    omega (arith, same)

params_pos : (k : Key) → 0 < (params k).refill_rate
params_pos global = omega arith
params_pos (player id) = omega arith

module _ (redis : Redis) where
  open redis use {Store, hmget}

  -- Redis drops a key whose time to live is over.
  pub record IsLapse (s : Store) (now : ℕ) (k : Key) (s' : Store) : Type 0 where
    pub old : (b : Bucket) → hmget s k ≡ some b → b.last_refill + time_to_live (params k) ≤ now
    pub gone : (j : Key) → hmget s' j ≡ (if key_eq k j then none else hmget s j)

  -- Calls of the limiter and expiries, one after the other, from the store `s` at the time `t` on; Redis may be
  -- out of reach for some of the calls.
  pub data History (s : Store) (t : ℕ) : Store → ℕ → Type 0 where
    start : History s t s t
    mutated :
        {u : Store} {last : ℕ}
        → History s t u last
        → (connected : Bool) (id : String) (now : ℕ) → last ≤ now
        → History s t (allow_mutation redis connected u id now).1 now
    drew :
        {u : Store} {last : ℕ}
        → History s t u last
        → (connected : Bool) (id : String) (n now : ℕ) → last ≤ now
        → History s t (drain_n redis connected u id now n).1 now
    lapsed :
        {u : Store} {last : ℕ}
        → History s t u last
        → (k : Key) (now : ℕ) (v : Store) → last ≤ now
        → IsLapse u now k v
        → History s t v now

  -- What the answers of the calls show to have been let through, for a key.
  abbrev pub let_through : Key → {s : Store} {t : ℕ} {u : Store} {last : ℕ} → History s t u last → ℕ
  let_through k start = 0
  let_through k (mutated {u} h connected id now order) =
      let_through k h + granted k id (allow_mutation redis connected u id now).0
  let_through k (drew {u} h connected id n now order) =
      let_through k h + drained k id (drain_n redis connected u id now n).0
  let_through k (lapsed h j now v order lapse) = let_through k h

  -- A key that a call may charge has the token.
  has_token :
      (u : Store) (id : String) (now : ℕ) (k : Key)
      → allows redis u id now ≡ true
      → (key_eq (player id) k || key_eq global k) ≡ true
      → 1 ≤ tokens_at redis u k now
  has_token u id now global allowed pays = ground arith
  has_token u id now (player j) allowed pays = elim (Bool-cases (key_eq (player id) (player j))) [
    | inl own ↦ rw (← key_eq→≡ (player id) (player j) own) (ground arith)
    | inr other ↦ absurd (cc (rw other at pays))
  ]

  mutated_charged :
      (connected : Bool) (u : Store) (id : String) (now : ℕ) (k : Key)
      → granted k id (allow_mutation redis connected u id now).0
          + tokens_at redis (allow_mutation redis connected u id now).1 k now
        ≤ tokens_at redis u k now
  mutated_charged false u id now k = unfold allow_mutation in omega arith
  mutated_charged true u id now k =
      let effect = allow_mutation_lem redis u id now k in
      rw (effect.0, effect.1)
        (elim (Bool-cases (allows redis u id now)) [
          | inl allowed ↦ elim (Bool-cases (key_eq (player id) k || key_eq global k)) [
            | inl pays ↦
                let left = has_token u id now k allowed pays in
                rw (allowed, pays) (omega (arith, left))
            | inr other ↦ rw (allowed, other) (omega arith)
          ]
          | inr refused ↦ rw refused (omega arith)
        ])

  -- What DrainN takes, the key has.
  drains_fits :
      (u : Store) (id : String) (n now : ℕ) (k : Key)
      → drained k id (some (drains redis u id now n))
          + (tokens_at redis u k now
              - (if key_eq (player id) k
                  then drains redis u id now n
                  else one_if (key_eq global k)))
        ≤ tokens_at redis u k now
  drains_fits u id n now global = ground arith
  drains_fits u id n now (player j) = elim (Bool-cases (key_eq (player id) (player j))) [
    | inl own ↦ rw (own, ← key_eq→≡ (player id) (player j) own) (ground arith)
    | inr other ↦ rw other (omega arith)
  ]

  drew_charged :
      (connected : Bool) (u : Store) (id : String) (n now : ℕ) (k : Key)
      → drained k id (drain_n redis connected u id now n).0
          + tokens_at redis (drain_n redis connected u id now n).1 k now
        ≤ tokens_at redis u k now
  drew_charged false u id n now k = unfold drain_n in omega arith
  drew_charged true u id n now k =
      let effect = drain_n_lem redis u id now n k in
      rw (effect.0, effect.1) (drains_fits u id n now k)

  lapsed_charged :
      (u v : Store) (j : Key) (now : ℕ) (k : Key)
      → IsLapse u now j v
      → tokens_at redis v k now ≤ tokens_at redis u k now
  lapsed_charged u v j now k lapse = rw (lapse.gone k) (elim (Bool-cases (key_eq j k)) [
    | inl same ↦
        rw (same, ← key_eq→≡ j k same)
          (available_lapsed (params j) now (hmget u j) (params_pos j) lapse.old)
    | inr other ↦ rw other (omega arith)
  ])

  -- Time passes, and a bucket gains what its rate allows.
  later_tokens :
      (u : Store) (k : Key) (t last now passed left : ℕ)
      → t ≤ last
      → last ≤ now
      → passed + tokens_at redis u k last ≤ left + (last - t) * (params k).refill_rate
      → passed + tokens_at redis u k now ≤ left + (now - t) * (params k).refill_rate
  later_tokens u k t last now passed left past order h =
      let gain = available_later (params k) last now (hmget u k) order in
      let split : now - t ≡ (last - t) + (now - last) = omega arith in
      let scaled = ap (λ (d : ℕ). d * (params k).refill_rate) split in
      omega (arith, gain, scaled, h)

  -- The tokens that were let through and those that are left are paid for by time.
  record IsPaid (k : Key) (s : Store) (t passed : ℕ) (u : Store) (last : ℕ) : Type 0 where
    past : t ≤ last
    paid :
        passed + tokens_at redis u k last
        ≤ tokens_at redis s k t + (last - t) * (params k).refill_rate

  -- A call takes from the tokens that are there when it is made.
  IsPaid-call :
      (k : Key) (s : Store) (t passed taken : ℕ) (u v : Store) (last now : ℕ)
      → IsPaid k s t passed u last
      → last ≤ now
      → taken + tokens_at redis v k now ≤ tokens_at redis u k now
      → IsPaid k s t (passed + taken) v now
  IsPaid-call k s t passed taken u v last now p order charged =
      let waited = later_tokens u k t last now passed (tokens_at redis s k t) p.past order p.paid in
      record { past = omega (arith, p.past); paid = omega (arith, waited, charged) }

  history-IsPaid :
      (k : Key) {s : Store} {t : ℕ} {u : Store} {last : ℕ} (h : History s t u last)
      → IsPaid k s t (let_through k h) u last
  history-IsPaid k {s} {t} start = record { past = omega arith; paid = omega arith }
  history-IsPaid k {s} {t} (mutated {u} {last} h connected id now order) =
      IsPaid-call k s t (let_through k h) (granted k id (allow_mutation redis connected u id now).0)
        u _ last now (history-IsPaid k h) order (mutated_charged connected u id now k)
  history-IsPaid k {s} {t} (drew {u} {last} h connected id n now order) =
      IsPaid-call k s t (let_through k h) (drained k id (drain_n redis connected u id now n).0) u _
        last now (history-IsPaid k h) order (drew_charged connected u id n now k)
  history-IsPaid k {s} {t} (lapsed {u} {last} h j now v order lapse) =
      let gone = lapsed_charged u v j now k lapse in
      let p = history-IsPaid k h in
      let waited =
        later_tokens u k t last now (let_through k h) (tokens_at redis s k t) p.past order p.paid in
      record { past = omega (arith, p.past, order); paid = omega (arith, waited, gone) }

  -- In any sequence of AllowMutation and DrainN calls by any players, with the clock not going back, Redis out
  -- of reach for some calls, and expired keys dropped in between, what the answers let through for a key is at
  -- most its capacity and what its rate adds in the time from the start to the last call: 50 and 5 a
  -- second for a player, 10000 and 2000 a second for all of them.
  pub let_through-bound :
      (k : Key) {s : Store} {t : ℕ} {u : Store} {last : ℕ} (h : History s t u last)
      → let_through k h ≤ (params k).capacity + (last - t) * (params k).refill_rate
  let_through-bound k {s} {t} h =
      let p = history-IsPaid k h in
      let full = available-le-capacity (params k) t (hmget s k) in omega (arith, p.paid, full)

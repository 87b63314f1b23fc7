-- ===== src/Ratelimit/Charges.antt =====
-- AllowMutation and DrainN as their callers see them: what is answered, what is charged to whom, and
-- that a refusal charges nobody.
use distributed_game_of_life.Prelude.{
  ℕ, ◌+◌, ◌-◌, ◌*◌, ◌≡◌, ◌≤◌, min, arith, refl, Option, none, some, leb, ltb, if◌then◌else◌, Bool,
  true, false, ◌&&◌, ◌||◌, Bool-cases, inl, inr, one_if, ◌∙◌, ap,
}
use Prim.Native.String.{String}
use text.Mathlib.TextEquality.{eq_iff}
use distributed_game_of_life.Ratelimit.{
  Redis, Bucket, Params, Key, global, player, key_eq, global_params, player_params, refill,
  allow_mutation, drain_n,
}
use distributed_game_of_life.Ratelimit.Refill.{available, available-le-capacity, refill-refill}
use distributed_game_of_life.Ratelimit.Effects.{
  tokens_at, IsTimed, current, taken, charged, returned, hmget-save_bucket, token_bucket_lem,
  drain_script_lem,
}

pub key_eq_self : (k : Key) → key_eq k k ≡ true
key_eq_self global = refl
key_eq_self (player id) = (eq_iff id id).1 refl

pub key_eq→≡ : (a b : Key) → key_eq a b ≡ true → a ≡ b
key_eq→≡ global global h = refl
key_eq→≡ (player a) (player b) h = ap player ((eq_iff a b).0 h)
key_eq→≡ global (player b) h = absurd (ground arith)
key_eq→≡ (player a) global h = absurd (ground arith)

-- A bucket that was refilled and stored has, from then on, what it would have had.
available-refill :
    (p : Params) (now later : ℕ) (o : Option Bucket)
    → ((b : Bucket) → o ≡ some b → b.last_refill ≤ now)
    → now ≤ later
    → available p later (some (refill p now o)) ≡ available p later o
available-refill p now later (some b) timed order =
    ap (λ (c : Bucket). c.tokens) (refill-refill p now later b (timed b refl) order)
available-refill p now later none timed order = unfold refill in omega arith

refill-tokens :
    (p : Params) (now : ℕ) (b : Bucket)
    → available p now (some b) ≡ min p.capacity (b.tokens + (now - b.last_refill) * p.refill_rate)
unfolding refill
refill-tokens p now b = refl

-- Nothing more comes in at the time of a refill.
refill_settled :
    (p : Params) (now : ℕ) (o : Option Bucket)
    → (now - (refill p now o).last_refill) * p.refill_rate ≡ 0
unfolding refill
refill_settled p now none = grind arith
refill_settled p now (some b) = elim (Bool-cases (ltb 0 ((now - b.last_refill) * p.refill_rate))) [
  | inl moved ↦ rw moved (grind arith)
  | inr kept ↦ rw kept (ground arith)
]

-- A bucket from which tokens were taken just now has what was left.
available-taken :
    (p : Params) (now n : ℕ) (o : Option Bucket)
    → available p now (some (record (refill p now o) { tokens = available p now o - n }))
      ≡ available p now o - n
available-taken p now n o =
    let settled = refill_settled p now o in
    let fits = available-le-capacity p now o in
    refill-tokens p now (record (refill p now o) { tokens = available p now o - n }) ∙ omega arith

available-again :
    (p : Params) (now : ℕ) (o : Option Bucket)
    → available p now (some (refill p now o)) ≡ available p now o
available-again p now o =
    let settled = refill_settled p now o in
    let fits = available-le-capacity p now o in refill-tokens p now (refill p now o) ∙ omega arith

module _ (redis : Redis) where
  open redis use {Store, hmget, hmset, expire, hincrby}

  hmget-charged :
      (s : Store) (id : String) (now g n : ℕ) (j : Key)
      → hmget (charged redis s id now g n) j ≡ (
          if key_eq (player id) j
          then some (taken redis s (player id) now n)
          else if key_eq global j
          then some (taken redis s global now g)
          else hmget s j)
  hmget-charged s id now g n j =
      hmget-save_bucket redis _ (player id) j player_params _
      ∙ ground
          (arith, hmget-save_bucket redis s global j global_params (taken redis s global now g))

  hmget-returned :
      (s : Store) (now : ℕ) (j : Key)
      → 1 ≤ tokens_at redis s global now
      → hmget (returned redis s now) j
        ≡ (if key_eq global j then some (current redis s global now) else hmget s j)
  hmget-returned s now j left =
      let one = taken redis s global now 1 in
      let saved = hmget-save_bucket redis s global global global_params one in
      let restored : tokens_at redis s global now - 1 + 1 ≡ tokens_at redis s global now =
        omega arith in
      redis.hmget-hincrby _ global j 1 one saved
      ∙ rw (restored, hmget-save_bucket redis s global j global_params one) (ground arith)

  -- What is left for each key once a call by `id` has taken `g` global tokens and `n` of its own.
  tokens_at-charged :
      (s : Store) (id : String) (now g n : ℕ) (j : Key)
      → tokens_at redis (charged redis s id now g n) j now
        ≡ tokens_at redis s j now
          - (if key_eq (player id) j then n else if key_eq global j then g else 0)
  tokens_at-charged s id now g n j =
      rw (hmget-charged s id now g n j) (elim (Bool-cases (key_eq (player id) j)) [
        | inl own ↦
            rw (own, ← key_eq→≡ (player id) j own)
              (available-taken player_params now n (hmget s (player id)))
        | inr not_own ↦ elim (Bool-cases (key_eq global j)) [
          | inl shared ↦
              rw (not_own, shared, ← key_eq→≡ global j shared)
                (available-taken global_params now g (hmget s global))
          | inr other ↦ rw (not_own, other) (omega arith)
        ]
      ])

  tokens_at-returned :
      (s : Store) (now later : ℕ) (j : Key)
      → IsTimed redis s now
      → now ≤ later
      → 1 ≤ tokens_at redis s global now
      → tokens_at redis (returned redis s now) j later ≡ tokens_at redis s j later
  tokens_at-returned s now later j timed order left =
      rw (hmget-returned s now j left) (elim (Bool-cases (key_eq global j)) [
        | inl shared ↦
            rw (shared, ← key_eq→≡ global j shared)
              (available-refill global_params now later (hmget s global) (timed global) order)
        | inr other ↦ rw other refl
      ])

  tokens_at-returned_now :
      (s : Store) (now : ℕ) (j : Key)
      → 1 ≤ tokens_at redis s global now
      → tokens_at redis (returned redis s now) j now ≡ tokens_at redis s j now
  tokens_at-returned_now s now j left =
      rw (hmget-returned s now j left) (elim (Bool-cases (key_eq global j)) [
        | inl shared ↦
            rw (shared, ← key_eq→≡ global j shared)
              (available-again global_params now (hmget s global))
        | inr other ↦ rw other refl
      ])

  -- The answer of AllowMutation: both the global bucket and the player's have a token.
  abbrev pub allows : Store → String → ℕ → Bool
  allows s id now =
      leb 1 (tokens_at redis s global now) && leb 1 (tokens_at redis s (player id) now)

  -- AllowMutation, with Redis in reach: it allows exactly when both the global bucket and the player's
  -- have a token. Then it takes one of each; otherwise, and from any other player, it takes none.
  pub allow_mutation_lem :
      (s : Store) (id : String) (now : ℕ) (j : Key)
      → ((allow_mutation redis true s id now).0 ≡ some (allows s id now))
        × (tokens_at redis (allow_mutation redis true s id now).1 j now
            ≡ tokens_at redis s j now
              - one_if (allows s id now && (key_eq (player id) j || key_eq global j)))
  unfolding allow_mutation
  allow_mutation_lem s id now j =
      rw (token_bucket_lem redis s id now)
        (elim (Bool-cases (leb 1 (tokens_at redis s global now))) [
          | inl some_left ↦ elim (Bool-cases (leb 1 (tokens_at redis s (player id) now))) [
            | inl player_left ↦
                rw (some_left, player_left) (refl, tokens_at-charged s id now 1 1 j ∙ ground arith)
            | inr player_empty ↦
                rw (some_left, player_empty)
                  (refl, tokens_at-returned_now s now j (ground arith) ∙ omega arith)
          ]
          | inr none_left ↦ rw none_left (refl, omega arith)
        ])

  -- A refusal charges nobody: whatever key is asked about at whatever later time, a refused call left
  -- the tokens that there would be without it. No bucket was filled after the time of the call.
  pub allow_mutation_refused :
      (s : Store) (id : String) (now later : ℕ) (j : Key)
      → IsTimed redis s now
      → now ≤ later
      → allows s id now ≡ false
      → tokens_at redis (allow_mutation redis true s id now).1 j later ≡ tokens_at redis s j later
  unfolding allow_mutation
  allow_mutation_refused s id now later j timed order refused =
      rw (token_bucket_lem redis s id now)
        (elim (Bool-cases (leb 1 (tokens_at redis s global now))) [
          | inl some_left ↦
              let player_empty : leb 1 (tokens_at redis s (player id) now) ≡ false =
                rw some_left at refused in
              rw (some_left, player_empty)
                (tokens_at-returned s now later j timed order (ground arith))
          | inr none_left ↦ rw none_left refl
        ])

  none_taken :
      (s : Store) (id : String) (now : ℕ) (j : Key)
      → ltb (tokens_at redis s global now) 1 ≡ true
      → tokens_at redis s j now
        ≡ tokens_at redis s j now - (if key_eq (player id) j then 0 else one_if (key_eq global j))
  none_taken s id now j empty = elim (Bool-cases (key_eq global j)) [
    | inl shared ↦ rw (← key_eq→≡ global j shared) (ground arith)
    | inr other ↦ rw other (ground arith)
  ]

  -- What DrainN takes from the player: up to `n` tokens, and none if the global bucket is empty.
  abbrev pub drains : Store → String → ℕ → ℕ → ℕ
  drains s id now n =
      if ltb (tokens_at redis s global now) 1 then 0 else min n (tokens_at redis s (player id) now)

  -- DrainN, with Redis in reach: it answers what it takes from the player. Of the global bucket it takes
  -- one token, if there is one, and of another player's none.
  pub drain_n_lem :
      (s : Store) (id : String) (now n : ℕ) (j : Key)
      → ((drain_n redis true s id now n).0 ≡ some (drains s id now n))
        × (tokens_at redis (drain_n redis true s id now n).1 j now
            ≡ tokens_at redis s j now
              - (if key_eq (player id) j then drains s id now n else one_if (key_eq global j)))
  unfolding drain_n
  drain_n_lem s id now n j =
      rw (drain_script_lem redis s id now n)
        (elim (Bool-cases (ltb (tokens_at redis s global now) 1)) [
          | inl none_left ↦ rw none_left (refl, none_taken s id now j none_left)
          | inr some_left ↦ rw some_left (
            refl,
            tokens_at-charged s id now 1 (min n (tokens_at redis s (player id) now)) j
                ∙ ground arith,
          )
        ])

-- ===== src/Ratelimit/Refill.antt =====
-- The refill of one bucket over time.
use distributed_game_of_life.Prelude.{
  ℕ, ◌+◌, ◌-◌, ◌*◌, ◌≡◌, ◌<◌, ◌≤◌, min, arith, Option, none, some, ltb, if◌then◌else◌, ap,
  Bool-cases, inl, inr, zero, suc, ◌==◌, ◌∙◌,
}
use distributed_game_of_life.Ratelimit.{Bucket, Params, refill, time_to_live}

-- The tokens that a bucket has at a time.
abbrev pub available : Params → ℕ → Option Bucket → ℕ
available p now b = (refill p now b).tokens

-- A bucket never has more than its capacity, whatever is stored.
pub available-le-capacity :
    (p : Params) (now : ℕ) (b : Option Bucket) → available p now b ≤ p.capacity
unfolding refill
available-le-capacity p now none = omega arith
available-le-capacity p now (some b) = omega arith

-- The expiry of a key goes unnoticed: once its time to live is over, a bucket that is still stored
-- refills to just what a missing one starts from.
pub refill_expired :
    (p : Params) (now : ℕ) (b : Bucket)
    → 0 < p.refill_rate
    → b.last_refill + time_to_live p ≤ now
    → refill p now (some b) ≡ refill p now none
unfolding refill time_to_live
refill_expired p now b rate old =
    let gone = now - b.last_refill in
    let enough : p.capacity ≤ gone * p.refill_rate = grind arith in
    let moved : 0 < gone * p.refill_rate = grind arith in ground arith

refill_time :
    (rate last now : ℕ)
    → last ≤ now
    → (if ltb 0 ((now - last) * rate) then now else last) ≡ (if rate == 0 then last else now)
refill_time zero last now h = ground arith
refill_time (suc rate) last now h = elim (Bool-cases (ltb last now)) [
  | inl earlier ↦ let moved : 0 < (now - last) * suc rate = grind arith in ground arith
  | inr same ↦ ground arith
]

-- A refill at a time that is not in the past.
refill_lem :
    (p : Params) (now : ℕ) (b : Bucket)
    → b.last_refill ≤ now
    → refill p now (some b) ≡ record {
      tokens = min p.capacity (b.tokens + (now - b.last_refill) * p.refill_rate);
      last_refill = if p.refill_rate == 0 then b.last_refill else now;
    }
unfolding refill
refill_lem p now b h =
    ap
      (λ (t : ℕ). record {
        tokens = min p.capacity (b.tokens + (now - b.last_refill) * p.refill_rate);
        last_refill = t;
      })
      (refill_time p.refill_rate b.last_refill now h)

refill_never :
    (p : Params) (now later : ℕ) (b : Bucket)
    → p.refill_rate ≡ 0
    → ◌≡◌ {A = Bucket}
        (record {
          tokens = min p.capacity (
              min p.capacity (b.tokens + (now - b.last_refill) * p.refill_rate)
              + (later - b.last_refill) * p.refill_rate);
          last_refill = b.last_refill;
        })
        (record {
          tokens = min p.capacity (b.tokens + (later - b.last_refill) * p.refill_rate);
          last_refill = b.last_refill;
        })
refill_never p now later b none_added =
    rw none_added (ap (λ (t : ℕ). record { tokens = t; last_refill = b.last_refill }) (omega arith))

-- Refilling at a time and again later is refilling later.
pub refill-refill :
    (p : Params) (now later : ℕ) (b : Bucket)
    → b.last_refill ≤ now
    → now ≤ later
    → refill p later (some (refill p now (some b))) ≡ refill p later (some b)
refill-refill p now later b past order =
    let split : later - b.last_refill ≡ (now - b.last_refill) + (later - now) = omega arith in
    let added = ap (λ (t : ℕ). t * p.refill_rate) split in
    rw (refill_lem p now b past, refill_lem p later b (omega arith))
      (refill_lem p later _ (ground arith) ∙ elim (Bool-cases (p.refill_rate == 0)) [
        | inl none_added ↦ rw none_added (refill_never p now later b (ground arith))
        | inr some_added ↦
            rw some_added
              (ap (λ (t : ℕ). record { tokens = t; last_refill = later }) (omega (arith, added)))
      ])

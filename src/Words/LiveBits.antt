-- ===== src/Words/LiveBits.antt =====
-- The loop `for row != 0 { x := bits.TrailingZeros64(row); row &^= 1 << x; … }` runs through the set
-- bits in ascending order and ends.
use native.Mathlib.Nat.{pow-suc}
use distributed_game_of_life.Prelude.{ℕ, zero, suc, ◌+◌, ◌*◌, ◌/◌, ◌%◌, ◌^◌, ◌≤◌, ◌<◌, ◌-◌}
use distributed_game_of_life.Prelude.{◌≡◌, refl, ap, arith, false, ◌&&◌}
use distributed_game_of_life.Prelude.{◌==◌, leb, ltb, if◌then◌else◌, List, [], ◌∷◌}
use distributed_game_of_life.Prelude.{
  Bool-cases, ==→≡, ==→≢, contains, Ascends, Ascends-lower, length, inl, inr,
}
use distributed_game_of_life.Words.{and_not, trailing_zeros, ones_count, for_each_bit}
use distributed_game_of_life.Words.Digits.{and_not_digit}
use distributed_game_of_life.Words.Bits.{
  test_bit, test_bit-zero, test_bit_ext, test_bit-and_not, shl_one,
}

-- The positions of the set bits among the `n` lowest of r, counted from i, in ascending order.
unfoldable pub live_bits : ℕ → ℕ → ℕ → List ℕ
live_bits zero i r = []
live_bits (suc n) i r =
    let rest = live_bits n (suc i) (r / 2) in if r % 2 == 1 then i ∷ rest else rest

double_shift : (r i : ℕ) → r * 2 ^ suc i ≡ 2 * (r * 2 ^ i)
double_shift r i = omega (arith, ap (λ (t : ℕ). r * t) (pow-suc 2 i))

halve_shift : (r i : ℕ) → r * 2 ^ i ≡ r / 2 * 2 ^ suc i + r % 2 * 2 ^ i
halve_shift r i =
    let split : r ≡ 2 * (r / 2) + r % 2 = omega arith in
    omega (arith, ap (λ (t : ℕ). t * 2 ^ i) split, double_shift (r / 2) i)

trailing_zeros-odd : (n i r : ℕ) → i < n → r % 2 ≡ 1 → trailing_zeros n (r * 2 ^ i) ≡ i
unfolding trailing_zeros
trailing_zeros-odd zero i r h odd = absurd (omega arith)
trailing_zeros-odd (suc n) zero r h odd = ground arith
trailing_zeros-odd (suc n) (suc i) r h odd = rw (double_shift r i) (
    let half : 2 * (r * 2 ^ i) / 2 ≡ r * 2 ^ i = omega arith in
    rw half (ground (arith, trailing_zeros-odd n i r (omega arith) odd)))

and_not-zero : (a : ℕ) → and_not a 0 ≡ a
and_not-zero a =
    test_bit_ext (and_not a 0) a (λ i. rw (test_bit-and_not a 0 i, test_bit-zero i) (ground arith))

and_not-lowest : (i r : ℕ) → r % 2 ≡ 1 → and_not (r * 2 ^ i) (2 ^ i) ≡ r / 2 * 2 ^ suc i
and_not-lowest zero r odd = omega (arith, and_not_digit (r * 1) 1, and_not-zero (r * 1 / 2))
and_not-lowest (suc i) r odd = ground (
  arith,
  and_not_digit (r * 2 ^ suc i) (2 ^ suc i),
  and_not-lowest i r odd,
  double_shift r i,
  pow-suc 2 i,
  double_shift (r / 2) (suc i),
)

shift-ne-zero : (i r : ℕ) → r % 2 ≡ 1 → (r * 2 ^ i == 0) ≡ false
shift-ne-zero zero r odd = ground arith
shift-ne-zero (suc i) r odd = ground (arith, double_shift r i, shift-ne-zero i r odd)

module _ {ℓ} {S : Type ℓ} (body : ℕ → S → S) where
  abbrev pub each : List ℕ → S → S
  each [] s = s
  each (x ∷ xs) s = each xs (body x s)

  for_each_bit-zero : (fuel : ℕ) (s : S) → for_each_bit fuel body 0 s ≡ s
  unfolding for_each_bit
  for_each_bit-zero zero s = refl
  for_each_bit-zero (suc fuel) s = refl

  -- One round: the lowest set bit is at `i`.
  for_each_bit-suc :
      (fuel i r : ℕ) (s : S)
      → i < 64
      → r % 2 ≡ 1
      → for_each_bit (suc fuel) body (r * 2 ^ i) s
        ≡ for_each_bit fuel body (r / 2 * 2 ^ suc i) (body i s)
  unfolding for_each_bit
  for_each_bit-suc fuel i r s h odd = rw (
    for_each_bit,
    shift-ne-zero i r odd,
    trailing_zeros-odd 64 i r h odd,
    shl_one i h,
    and_not-lowest i r odd,
  )

  for_each_bit_from :
      (n i r fuel : ℕ) (s : S)
      → r < 2 ^ n
      → n + i ≤ 64
      → n ≤ fuel
      → for_each_bit fuel body (r * 2 ^ i) s ≡ each (live_bits n i r) s
  unfolding live_bits
  for_each_bit_from zero i r fuel s small fits enough =
      let cleared : r * 2 ^ i ≡ 0 = grind arith in rw cleared (for_each_bit-zero fuel s)
  for_each_bit_from (suc n) i r zero s small fits enough = absurd (omega arith)
  for_each_bit_from (suc n) i r (suc fuel) s small fits enough = elim (Bool-cases (r % 2 == 1)) [
    | inl odd ↦
        let is_odd = ==→≡ (r % 2) 1 odd in
        rw (for_each_bit-suc fuel i r s (omega arith) is_odd, live_bits, odd)
          (for_each_bit_from n (suc i) (r / 2) fuel (body i s) (omega (arith, pow-suc 2 n))
            (omega arith) (omega arith))
    | inr even ↦
        let moved : r * 2 ^ i ≡ r / 2 * 2 ^ suc i =
          let is_even = ==→≢ (r % 2) 1 even in
          let low : r % 2 ≡ 0 = omega arith in
          omega (arith, halve_shift r i, ap (λ (t : ℕ). t * 2 ^ i) low) in
        rw (moved, live_bits, even)
          (for_each_bit_from n (suc i) (r / 2) (suc fuel) s (omega (arith, pow-suc 2 n))
            (omega arith) (omega arith))
  ]

  -- On any word the loop ends, with 64 rounds of fuel or more, and has then run its body once at
  -- each set bit, in ascending order.
  pub for_each_bit_lem :
      (fuel row : ℕ) (s : S)
      → row < 2 ^ 64
      → 64 ≤ fuel
      → for_each_bit fuel body row s ≡ each (live_bits 64 0 row) s
  for_each_bit_lem fuel row s small enough =
      let at_zero : row * 2 ^ 0 ≡ row = omega arith in
      rw at_zero at (for_each_bit_from 64 0 row fuel s small (omega arith) enough)

test_bit_after : (r i x : ℕ) → i < x → test_bit r (x - i) ≡ test_bit (r / 2) (x - suc i)
unfolding test_bit
test_bit_after r i x h = let next : x - i ≡ suc (x - suc i) = omega arith in rw next

-- A position is visited exactly when its bit is set.
pub contains-live_bits :
    (n i r x : ℕ) → contains x (live_bits n i r) ≡ (leb i x && ltb x (i + n) && test_bit r (x - i))
unfolding live_bits test_bit
contains-live_bits zero i r x = ground arith
contains-live_bits (suc n) i r x = elim (Bool-cases (i == x)) [
  | inl here ↦
      let at_low : x - i ≡ 0 = ground arith in
      rw at_low (ground (arith, contains-live_bits n (suc i) (r / 2) x))
  | inr other ↦ ground (arith, contains-live_bits n (suc i) (r / 2) x, test_bit_after r i x)
]

-- There are as many as OnesCount64 counts.
pub length-live_bits : (n i r : ℕ) → length (live_bits n i r) ≡ ones_count n r
unfolding live_bits ones_count
length-live_bits zero i r = refl
length-live_bits (suc n) i r = ground (arith, length-live_bits n (suc i) (r / 2))

pub live_bits-Ascends : (n i r : ℕ) → Ascends i (i + n) (live_bits n i r)
unfolding live_bits
live_bits-Ascends zero i r = omega arith
live_bits-Ascends (suc n) i r =
    let moved : suc i + n ≡ i + suc n = omega arith in
    let rest = live_bits-Ascends n (suc i) (r / 2) in
    let later = rw moved at rest in
    elim (Bool-cases (r % 2 == 1)) [
      | inl odd ↦ rw odd (omega arith, later)
      | inr even ↦ rw even (Ascends-lower (suc i) i (i + suc n) _ (omega arith) later)
    ]

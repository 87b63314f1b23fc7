-- ===== src/Words/Bits.antt =====
-- A word as the set of its bits: `test_bit a i` is bit i of a. The operations of Words act bit by
-- bit, and a word is determined by its bits.
use Prim.Native.Nat.{bit_and, bit_or}
use native.Mathlib.Nat.{pow-le-pow_right, pow-suc, div-div-eq-div-mul, mod-eq_of_lt, one-le-pow}
use distributed_game_of_life.Prelude.{ℕ, zero, suc, ◌+◌, ◌*◌, ◌/◌, ◌%◌, ◌^◌, ◌≤◌, ◌<◌}
use distributed_game_of_life.Prelude.{◌≡◌, refl, sym, ◌∙◌, arith, Bool, false, not, ◌&&◌, ◌||◌}
use distributed_game_of_life.Prelude.{◌==◌, one_if}
use distributed_game_of_life.Words.{shl, shr, and_not}
use distributed_game_of_life.Words.Digits.{bit_or_digit, bit_and_digit, and_not_digit}

-- Bit i of a.
unfoldable pub test_bit : ℕ → ℕ → Bool
test_bit a zero = a % 2 == 1
test_bit a (suc i) = test_bit (a / 2) i

pub test_bit-or : (a b i : ℕ) → test_bit (bit_or a b) i ≡ (test_bit a i || test_bit b i)
unfolding test_bit
test_bit-or a b zero = ground (arith, bit_or_digit a b)
test_bit-or a b (suc i) =
    let half : bit_or a b / 2 ≡ bit_or (a / 2) (b / 2) = omega (arith, bit_or_digit a b) in
    rw half (test_bit-or (a / 2) (b / 2) i)

pub test_bit-and : (a b i : ℕ) → test_bit (bit_and a b) i ≡ (test_bit a i && test_bit b i)
unfolding test_bit
test_bit-and a b zero = ground (arith, bit_and_digit a b)
test_bit-and a b (suc i) =
    let half : bit_and a b / 2 ≡ bit_and (a / 2) (b / 2) = omega (arith, bit_and_digit a b) in
    rw half (test_bit-and (a / 2) (b / 2) i)

pub test_bit-and_not : (a b i : ℕ) → test_bit (and_not a b) i ≡ (test_bit a i && not (test_bit b i))
unfolding test_bit
test_bit-and_not a b zero = ground (arith, and_not_digit a b)
test_bit-and_not a b (suc i) =
    let half : and_not a b / 2 ≡ and_not (a / 2) (b / 2) = ground (arith, and_not_digit a b) in
    rw half (test_bit-and_not (a / 2) (b / 2) i)

pub test_bit-zero : (i : ℕ) → test_bit 0 i ≡ false
unfolding test_bit
test_bit-zero zero = refl
test_bit-zero (suc i) = test_bit-zero i

pub test_bit-two_pow : (k i : ℕ) → test_bit (2 ^ k) i ≡ (k == i)
unfolding test_bit
test_bit-two_pow zero zero = refl
test_bit-two_pow zero (suc i) = test_bit-zero i ∙ ground arith
test_bit-two_pow (suc k) zero = ground (arith, pow-suc 2 k)
test_bit-two_pow (suc k) (suc i) =
    let half : 2 ^ suc k / 2 ≡ 2 ^ k = omega (arith, pow-suc 2 k) in
    rw half (test_bit-two_pow k i ∙ ground arith)

pub two_pow-lt-word : (k : ℕ) → k < 64 → 2 ^ k < 2 ^ 64
two_pow-lt-word k h = omega (
  arith,
  pow-le-pow_right {n = 2} (omega arith) {i = suc k} {j = 64} h,
  pow-suc 2 k,
  one-le-pow k 2 (omega arith),
)

pub shl_one : (k : ℕ) → k < 64 → shl 1 k ≡ 2 ^ k
unfolding shl
shl_one k h = omega (arith, mod-eq_of_lt (two_pow-lt-word k h))

-- Words with the same bits are equal.
test_bit_ext_below : (n a b : ℕ) → a + b ≤ n → ((i : ℕ) → test_bit a i ≡ test_bit b i) → a ≡ b
unfolding test_bit
test_bit_ext_below zero a b h e = omega arith
test_bit_ext_below (suc n) zero zero h e = refl
test_bit_ext_below (suc n) a b h e =
    let halves = test_bit_ext_below n (a / 2) (b / 2) (omega arith) (λ i. e (suc i)) in
    ground (arith, e 0)

pub test_bit_ext : (a b : ℕ) → ((i : ℕ) → test_bit a i ≡ test_bit b i) → a ≡ b
test_bit_ext a b = test_bit_ext_below (a + b) a b (omega arith)

-- A number below 2 ^ w has no bit from w on, and the other way round.
pub test_bit_above : (w a i : ℕ) → a < 2 ^ w → w ≤ i → test_bit a i ≡ false
unfolding test_bit
test_bit_above zero a i h le = let none_set : a ≡ 0 = omega arith in rw none_set (test_bit-zero i)
test_bit_above (suc w) a zero h le = absurd (omega arith)
test_bit_above (suc w) a (suc i) h le =
    test_bit_above w (a / 2) i (omega (arith, pow-suc 2 w)) (omega arith)

pub lt_of_test_bits : (w a : ℕ) → ((i : ℕ) → w ≤ i → test_bit a i ≡ false) → a < 2 ^ w
unfolding test_bit
lt_of_test_bits zero a h =
    let cleared = test_bit_ext a 0 (λ i. h i (omega arith) ∙ sym (test_bit-zero i)) in omega arith
lt_of_test_bits (suc w) a h =
    omega (arith, pow-suc 2 w, lt_of_test_bits w (a / 2) (λ i le. h (suc i) (omega arith)))

pub bit_or-lt : (w a b : ℕ) → a < 2 ^ w → b < 2 ^ w → bit_or a b < 2 ^ w
bit_or-lt w a b ha hb =
    lt_of_test_bits w (bit_or a b)
      (λ i le. rw (test_bit-or a b i, test_bit_above w a i ha le, test_bit_above w b i hb le))

pub and_not-lt : (w a b : ℕ) → a < 2 ^ w → and_not a b < 2 ^ w
and_not-lt w a b ha =
    lt_of_test_bits w (and_not a b)
      (λ i le. rw (test_bit-and_not a b i, test_bit_above w a i ha le))

-- A word is zero when no bit below its width is set.
pub eq_zero_of_test_bits : (w a : ℕ) → a < 2 ^ w → ((i : ℕ) → i < w → test_bit a i ≡ false) → a ≡ 0
unfolding test_bit
eq_zero_of_test_bits zero a lt h = omega arith
eq_zero_of_test_bits (suc w) a lt h =
    let rest =
      eq_zero_of_test_bits w (a / 2) (omega (arith, pow-suc 2 w))
        (λ i le. h (suc i) (omega arith)) in
    ground (arith, h 0)

bit_and-zero : (a : ℕ) → bit_and a 0 ≡ 0
bit_and-zero a = test_bit_ext _ 0 (λ i. rw (test_bit-and a 0 i, test_bit-zero i) (ground arith))

bit_and-one : (a : ℕ) → bit_and a 1 ≡ a % 2
bit_and-one a = omega (arith, bit_and_digit a 1, bit_and-zero (a / 2))

-- `(a >> i) & 1` reads bit i.
pub shr-and-one : (a i : ℕ) → bit_and (shr a i) 1 ≡ one_if (test_bit a i)
unfolding test_bit
shr-and-one a zero = ground (arith, bit_and-one (a / 1))
shr-and-one a (suc i) =
    let twice : 2 ^ suc i ≡ 2 * 2 ^ i = omega (arith, pow-suc 2 i) in
    rw (twice, ← div-div-eq-div-mul a 2 (2 ^ i)) (shr-and-one (a / 2) i)

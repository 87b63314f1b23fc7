-- ===== src/Words/Masks.antt =====
-- The bits of masks: runs of ones, shifted words, and the test `row & mask != 0`.
use Prim.Native.Nat.{bit_and}
use native.Mathlib.Nat.{pow-suc, one-le-pow}
use distributed_game_of_life.Prelude.{ℕ, zero, suc, ◌-◌, ◌*◌, ◌/◌, ◌^◌, ◌≡◌, ◌↔◌, ap, ◌∙◌}
use distributed_game_of_life.Prelude.{true, false, ◌&&◌, leb, ltb, ◌==◌, arith, ==→≡, ≡→==}
use distributed_game_of_life.Words.Bits.{test_bit, test_bit-zero, test_bit-and, test_bit_ext}

-- The mask of the `k` lowest bits.
pub test_bit-low_mask : (k i : ℕ) → test_bit (2 ^ k - 1) i ≡ ltb i k
unfolding test_bit
test_bit-low_mask zero i = test_bit-zero i ∙ ground arith
test_bit-low_mask (suc k) zero = ground (arith, pow-suc 2 k, one-le-pow k 2)
test_bit-low_mask (suc k) (suc i) =
    let half : (2 ^ suc k - 1) / 2 ≡ 2 ^ k - 1 =
      omega (arith, pow-suc 2 k, one-le-pow k 2 (omega arith)) in
    rw half (test_bit-low_mask k i ∙ ground arith)

pub test_bit-shifted : (a k i : ℕ) → test_bit (a * 2 ^ k) i ≡ (leb k i && test_bit a (i - k))
unfolding test_bit
test_bit-shifted a zero i =
    let at_zero : a * 1 ≡ a = omega arith in
    let from_zero : i - 0 ≡ i = omega arith in rw (at_zero, from_zero) (ground arith)
test_bit-shifted a (suc k) zero = ground (arith, ap (λ (t : ℕ). a * t) (pow-suc 2 k))
test_bit-shifted a (suc k) (suc i) =
    let half : a * 2 ^ suc k / 2 ≡ a * 2 ^ k = omega (arith, ap (λ (t : ℕ). a * t) (pow-suc 2 k)) in
    let less : suc i - suc k ≡ i - k = omega arith in
    rw (half, less) (test_bit-shifted a k i ∙ ground arith)

-- `row & mask == 0` holds exactly when no bit is set in both.
pub masked_zero_iff :
    (row mask : ℕ)
    → ((bit_and row mask == 0) ≡ true) ↔ ((i : ℕ) → test_bit mask i ≡ true → test_bit row i ≡ false)
masked_zero_iff row mask = (
  λ h i set. ground (
    arith,
    test_bit-and row mask i,
    rw (==→≡ (bit_and row mask) 0 h) at (test_bit-and row mask i),
    test_bit-zero i,
  ),
  λ h. ≡→== _ 0 (
      test_bit_ext (bit_and row mask) 0
        (λ i. ground (arith, test_bit-and row mask i, test_bit-zero i, h i))),
)

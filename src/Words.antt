-- ===== src/Words.antt =====
-- Go's `uint64` as a native number below 2 ^ 64: the shifts and bit operations that the bitsets of
-- simulation/chunk.go and simulation/engine.go use, and the functions of Go's math/bits.
pub mod Digits
pub mod Bits
pub mod LiveBits
pub mod Masks
use distributed_game_of_life.Prelude.{ℕ, zero, suc, ◌+◌, ◌*◌, ◌/◌, ◌%◌, ◌^◌, ◌-◌, ◌==◌}
use distributed_game_of_life.Prelude.{if◌then◌else◌, true, false}
use Prim.Native.Nat.{bit_and, bit_xor}

abbrev pub word : ℕ
word = 2 ^ 64

-- a << k at type `uint64`; a shift by 64 or more leaves 0
unfoldable pub shl : ℕ → ℕ → ℕ
shl a k = a * 2 ^ k % word

-- a >> k
abbrev pub shr : ℕ → ℕ → ℕ
shr a k = a / 2 ^ k

-- a &^ b
unfoldable pub and_not : ℕ → ℕ → ℕ
and_not a b = bit_xor a (bit_and a b)

-- ^uint64(0)
abbrev pub all_ones : ℕ
all_ones = 2 ^ 64 - 1

-- bits.TrailingZeros64 and bits.OnesCount64, over the lowest `n` digits.
unfoldable pub trailing_zeros : ℕ → ℕ → ℕ
trailing_zeros zero a = 0
trailing_zeros (suc n) a = if a % 2 == 1 then 0 else suc (trailing_zeros n (a / 2))

unfoldable pub ones_count : ℕ → ℕ → ℕ
ones_count zero a = 0
ones_count (suc n) a = a % 2 + ones_count n (a / 2)

-- `for row != 0 { x := bits.TrailingZeros64(row); row &^= 1 << x; s = body x s }`, with fuel.
unfoldable pub for_each_bit {ℓ} : {S : Type ℓ} → ℕ → (ℕ → S → S) → ℕ → S → S
unfolding and_not shl trailing_zeros
for_each_bit zero body row s = s
for_each_bit (suc fuel) body row s = elim (row == 0) [
  | true ↦ s
  | false ↦
      let x = trailing_zeros 64 row in for_each_bit fuel body (and_not row (shl 1 x)) (body x s)
]

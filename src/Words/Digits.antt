-- ===== src/Words/Digits.antt =====
-- The native bit operations one binary digit at a time: an equation for the lowest digit and for the
-- rest. They are defined by a recursion on digits with fuel; here the fuel is dropped.
use Prim.Native.Nat.{digits, bitwise, differ, bit_and, bit_or, bit_xor}
use Prim.Native.Nat.{bit_and-bitwise, bit_or-bitwise, bit_xor-bitwise}
use distributed_game_of_life.Prelude.{ℕ, zero, suc, ◌+◌, ◌*◌, ◌/◌, ◌%◌, ◌≤◌, ◌<◌, ◌-◌, min, max}
use distributed_game_of_life.Prelude.{◌≡◌, refl, arith, ◌==◌, one_if}
use distributed_game_of_life.Words.{and_not}

module _ (rest : ℕ → ℕ) (op : ℕ → ℕ → ℕ) where
  -- Any two amounts of fuel that cover the first number give one result.
  digits_enough : (k l a b : ℕ) → a ≤ k → a ≤ l → digits rest op k a b ≡ digits rest op l a b
  digits_enough (suc k) (suc l) (suc a) b p q =
      rw (digits_enough k l (suc a / 2) (b / 2) (omega arith) (omega arith))
  digits_enough zero zero zero b p q = refl
  digits_enough zero (suc l) zero b p q = refl
  digits_enough (suc k) zero zero b p q = refl
  digits_enough (suc k) (suc l) zero b p q = refl
  digits_enough zero l (suc a) b p q = absurd (omega arith)
  digits_enough (suc k) zero (suc a) b p q = absurd (omega arith)

  bitwise_digit :
      (a b : ℕ)
      → bitwise rest op (suc a) b ≡ bitwise rest op (suc a / 2) (b / 2) * 2 + op (suc a % 2) (b % 2)
  bitwise_digit a b =
      omega (arith, digits_enough a (suc a / 2) (suc a / 2) (b / 2) (omega arith) (omega arith))

pub bit_or_digit : (a b : ℕ) → bit_or a b ≡ bit_or (a / 2) (b / 2) * 2 + max (a % 2) (b % 2)
bit_or_digit zero b = simp bit_or-bitwise (omega arith)
bit_or_digit (suc a) b = simp bit_or-bitwise (bitwise_digit (λ y. y) max a b)

pub bit_and_digit : (a b : ℕ) → bit_and a b ≡ bit_and (a / 2) (b / 2) * 2 + min (a % 2) (b % 2)
bit_and_digit zero b = simp bit_and-bitwise (omega arith)
bit_and_digit (suc a) b = simp bit_and-bitwise (bitwise_digit (λ y. 0) min a b)

differ_lem : (a b : ℕ) → a < 2 → b < 2 → differ a b ≡ 1 - one_if (a == b)
differ_lem zero zero p q = refl
differ_lem zero (suc b) p q = ground arith
differ_lem (suc zero) zero p q = refl
differ_lem (suc zero) (suc zero) p q = refl
differ_lem (suc zero) (suc (suc b)) p q = absurd (omega arith)
differ_lem (suc (suc a)) b p q = absurd (omega arith)

pub bit_xor_digit :
    (a b : ℕ) → bit_xor a b ≡ bit_xor (a / 2) (b / 2) * 2 + (1 - one_if (a % 2 == b % 2))
bit_xor_digit zero b = simp bit_xor-bitwise (ground arith)
bit_xor_digit (suc a) b =
    rw (← differ_lem (suc a % 2) (b % 2) (omega arith) (omega arith))
      (simp bit_xor-bitwise (bitwise_digit (λ y. y) differ a b))

-- A digit of `a &^ b` is that of `a`, cleared where `b` has a 1.
pub and_not_digit : (a b : ℕ) → and_not a b ≡ and_not (a / 2) (b / 2) * 2 + min (a % 2) (1 - b % 2)
unfolding and_not
and_not_digit a b =
    let half : bit_and a b / 2 ≡ bit_and (a / 2) (b / 2) = omega (arith, bit_and_digit a b) in
    let low : bit_and a b % 2 ≡ min (a % 2) (b % 2) = omega (arith, bit_and_digit a b) in
    rw (bit_xor_digit a (bit_and a b), half, low) (ground arith)

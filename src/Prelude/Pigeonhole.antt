-- ===== src/Prelude/Pigeonhole.antt =====
-- A list of distinct numbers below n has at most n entries.
use Prim.Native.Nat.{ℕ, zero, suc, ◌+◌, ◌≤◌, ◌<◌}
use mathlib.Core.Path.{◌≡◌, refl}
use mathlib.Core.Bool.{false, not, ◌&&◌}
use mathlib.Core.List.{List, [], ◌∷◌}
use native.Mathlib.Omega.{arith}
use distributed_game_of_life.Prelude.Tests.{◌==◌, if◌then◌else◌}
use distributed_game_of_life.Prelude.Lists.{length, contains}

abbrev pub AllBelow : ℕ → List ℕ → Type 0
AllBelow n [] = Unit {0}
AllBelow n (x ∷ xs) = (x < n) × AllBelow n xs

abbrev pub DistinctNumbers : List ℕ → Type 0
DistinctNumbers [] = Unit {0}
DistinctNumbers (x ∷ xs) = (contains x xs ≡ false) × DistinctNumbers xs

-- The list with every occurrence of a number taken out.
unfoldable pub without : ℕ → List ℕ → List ℕ
without n [] = []
without n (x ∷ xs) = let rest = without n xs in if x == n then rest else x ∷ rest

pub contains-without :
    (n a : ℕ) (xs : List ℕ) → contains a (without n xs) ≡ (contains a xs && not (a == n))
unfolding without
contains-without n a [] = refl
contains-without n a (x ∷ xs) = ground (arith, contains-without n a xs)

pub without-DistinctNumbers :
    (n : ℕ) (xs : List ℕ) → DistinctNumbers xs → DistinctNumbers (without n xs)
unfolding without
without-DistinctNumbers n [] d = tt
without-DistinctNumbers n (x ∷ xs) d =
    ground (arith, contains-without n x xs, without-DistinctNumbers n xs d.1)

without-AllBelow : (n : ℕ) (xs : List ℕ) → AllBelow (suc n) xs → AllBelow n (without n xs)
unfolding without
without-AllBelow n [] b = tt
without-AllBelow n (x ∷ xs) b = ground (arith, without-AllBelow n xs b.1)

without_absent : (n : ℕ) (xs : List ℕ) → contains n xs ≡ false → length (without n xs) ≡ length xs
unfolding without
without_absent n [] h = refl
without_absent n (x ∷ xs) h = ground (arith, without_absent n xs)

length-without : (n : ℕ) (xs : List ℕ) → DistinctNumbers xs → length xs ≤ length (without n xs) + 1
unfolding without
length-without n [] d = omega arith
length-without n (x ∷ xs) d = ground (arith, length-without n xs d.1, without_absent n xs)

pub pigeonhole : (n : ℕ) (xs : List ℕ) → AllBelow n xs → DistinctNumbers xs → length xs ≤ n
pigeonhole zero [] b d = omega arith
pigeonhole zero (x ∷ xs) b d = absurd (omega arith)
pigeonhole (suc n) xs b d = omega (
  arith,
  length-without n xs d,
  pigeonhole n (without n xs) (without-AllBelow n xs b) (without-DistinctNumbers n xs d),
)

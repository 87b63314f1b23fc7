-- ===== src/Prelude/Ascending.antt =====
-- Strictly ascending lists within bounds.
use Prim.Native.Nat.{ℕ, suc, ◌≤◌, ◌<◌}
use mathlib.Core.Path.{◌≡◌, refl}
use mathlib.Core.Bool.{false}
use mathlib.Core.List.{List, [], ◌∷◌, ◌++◌}
use native.Mathlib.Omega.{arith}
use distributed_game_of_life.Prelude.Lists.{contains}

-- The numbers of the list ascend strictly, from `lo` on and below `hi`.
abbrev pub Ascends : ℕ → ℕ → List ℕ → Type 0
Ascends lo hi [] = lo ≤ hi
Ascends lo hi (x ∷ xs) = (lo ≤ x) × Ascends (suc x) hi xs

pub Ascends-le : (lo hi : ℕ) (xs : List ℕ) → Ascends lo hi xs → lo ≤ hi
Ascends-le lo hi [] a = a
Ascends-le lo hi (x ∷ xs) a = omega (arith, Ascends-le (suc x) hi xs a.1)

pub Ascends-lower : (lo lo' hi : ℕ) (xs : List ℕ) → lo' ≤ lo → Ascends lo hi xs → Ascends lo' hi xs
Ascends-lower lo lo' hi [] le a = omega arith
Ascends-lower lo lo' hi (x ∷ xs) le a = (omega arith, a.1)

pub Ascends-append :
    (lo mid hi : ℕ) (xs ys : List ℕ)
    → Ascends lo mid xs
    → Ascends mid hi ys
    → Ascends lo hi (xs ++ ys)
Ascends-append lo mid hi [] ys a b = Ascends-lower mid lo hi ys a b
Ascends-append lo mid hi (x ∷ xs) ys a b = (a.0, Ascends-append (suc x) mid hi xs ys a.1 b)

-- Such a list holds nothing from `hi` on.
pub contains-Ascends :
    (lo hi a : ℕ) (xs : List ℕ) → Ascends lo hi xs → hi ≤ a → contains a xs ≡ false
contains-Ascends lo hi a [] h le = refl
contains-Ascends lo hi a (x ∷ xs) h le =
    ground (arith, Ascends-le (suc x) hi xs h.1, contains-Ascends (suc x) hi a xs h.1 le)

pub contains_below : (lo hi a : ℕ) (xs : List ℕ) → Ascends lo hi xs → a < lo → contains a xs ≡ false
contains_below lo hi a [] h lt = refl
contains_below lo hi a (x ∷ xs) h lt = ground (arith, contains_below (suc x) hi a xs h.1)

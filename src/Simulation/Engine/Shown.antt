-- ===== src/Simulation/Engine/Shown.antt =====
-- What a chunk and its halos show at the coordinates of the padded grid, and where the halo of a chunk at
-- a distance of one is placed.
use distributed_game_of_life.Prelude.{
  ℕ, zero, suc, ◌-◌, ◌≡◌, ◌⊎◌, inl, inr, ◌<◌, ◌≤◌, refl, Bool, true, false, ◌&&◌,
}
use distributed_game_of_life.Prelude.{
  ◌==◌, one_if, if◌then◌else◌, [], ◌∷◌, Option, none, some, arith, Bool-cases,
}
use distributed_game_of_life.Prelude.Int.{
  ℤ, pos, negsuc, eq_ℤ, eq_ℤ_iff, add64, mul64, IsInt64, sub64-add64,
}
use distributed_game_of_life.Simulation.Chunk.{ChunkId, Rows}
use distributed_game_of_life.Simulation.Chunk.Cells.{cell, IsValid}
use distributed_game_of_life.Simulation.ChunkMap.{find}
use distributed_game_of_life.Simulation.Engine.{Halos, halo_offset}
use distributed_game_of_life.Simulation.Engine.Scratch.{around}
use distributed_game_of_life.Simulation.Engine.Placement.{IsOffset, reaches, local, placed}

-- A distance of at most one chunk.
abbrev pub IsStep : ℤ → Type 0
IsStep d = (d ≡ negsuc 0) ⊎ (d ≡ pos 0) ⊎ (d ≡ pos 1)

-- `nid` is one of the eight chunks around `id`, the grid of chunks closing on itself at 64 bits.
pub record IsNeighbour (id nid : ChunkId) : Type 0 where
  pub dx : ℤ
  pub dy : ℤ
  pub step_x : IsStep dx
  pub step_y : IsStep dy
  pub apart : (eq_ℤ dx (pos 0) && eq_ℤ dy (pos 0)) ≡ false
  pub at_x : nid.x ≡ add64 id.x dx
  pub at_y : nid.y ≡ add64 id.y dy

abbrev pub IsId : ChunkId → Type 0
IsId id = IsInt64 id.x × IsInt64 id.y

-- Halos as TickAll builds them: valid rows of chunks around `id`.
abbrev pub AreHalos : ChunkId → Halos → Type 0
AreHalos id [] = Unit {0}
AreHalos id ((nid, nrows) ∷ halos) = IsNeighbour id nid × IsValid nrows × AreHalos id halos

-- The side of the chunk on which the padded coordinate `q` lies, and its coordinate in the chunk there.
abbrev pub side : ℕ → ℤ
side q = if q == 0 then negsuc 0 else if q == 65 then pos 1 else pos 0

abbrev pub inner : ℕ → ℕ
inner q = if q == 0 then 63 else if q == 65 then 0 else q - 1

abbrev pub neighbour_at : ChunkId → ℕ → ℕ → ChunkId
neighbour_at id qx qy = record { x = add64 id.x (side qx); y = add64 id.y (side qy) }

abbrev pub cell_of : Option Rows → ℕ → ℕ → Bool
cell_of none x y = false
cell_of (some rows) x y = cell rows x y

-- The cell that the chunk and its halos show at padded coordinates; without a halo it is dead.
abbrev pub shown : ChunkId → Rows → Halos → ℕ → ℕ → Bool
shown id rows halos qx qy =
    if eq_ℤ (side qx) (pos 0) && eq_ℤ (side qy) (pos 0)
    then cell rows (inner qx) (inner qy)
    else cell_of (find (neighbour_at id qx qy) halos) (inner qx) (inner qy)

-- The number of live neighbours of cell (x, y).
abbrev pub live_neighbours : ChunkId → Rows → Halos → ℕ → ℕ → ℕ
live_neighbours id rows halos = around (λ qx qy. one_if (shown id rows halos qx qy))

-- 1 + 64 d
abbrev pub step_offset : ℤ → ℤ
step_offset (pos zero) = pos 1
step_offset (pos (suc n)) = pos 65
step_offset (negsuc n) = negsuc 62

pub scaled_step : (d : ℤ) → IsStep d → add64 (pos 1) (mul64 d (pos 64)) ≡ step_offset d
unfolding mul64 add64
scaled_step d (inl e) = rw e refl
scaled_step d (inr (inl e)) = rw e refl
scaled_step d (inr (inr e)) = rw e refl

pub halo_offset-step : (a d : ℤ) → IsInt64 a → IsStep d → halo_offset (add64 a d) a ≡ step_offset d
unfolding halo_offset
halo_offset-step a d ha s = rw (sub64-add64 a d ha (ground arith)) (scaled_step d s)

pub step_offset-IsOffset : (d : ℤ) → IsStep d → IsOffset (step_offset d)
step_offset-IsOffset d s = ground arith

pub reaches-step : (d : ℤ) (q : ℕ) → IsStep d → q < 66 → reaches (step_offset d) q ≡ eq_ℤ d (side q)
reaches-step d q s h = ground arith

pub local-step :
    (d : ℤ) (q : ℕ) → IsStep d → q < 66 → eq_ℤ d (side q) ≡ true → local (step_offset d) q ≡ inner q
local-step d q s h e = ground arith

pub add64_inj :
    (a d e : ℤ) → IsInt64 a → IsStep d → IsStep e → eq_ℤ (add64 a d) (add64 a e) ≡ eq_ℤ d e
add64_inj a d e ha hd he = ground (
  arith,
  eq_ℤ_iff (add64 a d) (add64 a e),
  eq_ℤ_iff d e,
  sub64-add64 a d ha (ground arith),
  sub64-add64 a e ha (ground arith),
)

pub side-IsStep : (q : ℕ) → IsStep (side q)
side-IsStep q = ground arith

pub placed-step :
    (rows : Rows) (dx dy : ℤ) (qx qy : ℕ)
    → IsStep dx
    → IsStep dy
    → qx < 66
    → qy < 66
    → placed rows (step_offset dx) (step_offset dy) qx qy
      ≡ one_if (eq_ℤ dx (side qx) && eq_ℤ dy (side qy) && cell rows (inner qx) (inner qy))
placed-step rows dx dy qx qy sx sy hx hy =
    rw (reaches-step dx qx sx hx, reaches-step dy qy sy hy)
      (elim (Bool-cases (eq_ℤ dx (side qx))) [
        | inl ex ↦ elim (Bool-cases (eq_ℤ dy (side qy))) [
          | inl ey ↦ rw (ex, ey, local-step dx qx sx hx ex, local-step dy qy sy hy ey)
          | inr ny ↦ rw (ex, ny)
        ]
        | inr nx ↦ rw nx
      ])

pub both_zero : (a b : ℤ) → (eq_ℤ a (pos 0) && eq_ℤ b (pos 0)) ≡ true → (a ≡ pos 0) × (b ≡ pos 0)
both_zero a b h = ground arith

pub not_both_zero :
    (a b : ℤ) (c : Bool)
    → (eq_ℤ a (pos 0) && eq_ℤ b (pos 0)) ≡ false
    → (eq_ℤ (pos 0) a && eq_ℤ (pos 0) b && c) ≡ false
not_both_zero a b c h = ground arith

pub one_if-le : (b : Bool) → one_if b ≤ 1
one_if-le b = ground arith

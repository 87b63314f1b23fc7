-- ===== src/Simulation/TickAll/Spread.antt =====
-- What the loop over the entries keeps: chunks only become active, the world looks the same, the halos of
-- a chunk come from chunks around it, and a chunk with a halo is active.
use distributed_game_of_life.Prelude.{
  ℕ, Option, ◌≡◌, inl, inr, sym, ◌∙◌, arith, false, ◌&&◌, if◌then◌else◌, [], ◌∷◌, none, some,
  Bool-cases, Option-cases,
}
use distributed_game_of_life.Prelude.Int.{ℤ, pos, negsuc, eq_ℤ, add64, IsInt64}
use distributed_game_of_life.Simulation.Chunk.{ChunkId, Rows}
use distributed_game_of_life.Simulation.Chunk.Cells.{IsValid}
use distributed_game_of_life.Simulation.ChunkMap.{
  find-put, id_eq, id_eq_iff, find, put, DistinctKeys,
}
use distributed_game_of_life.Simulation.Engine.{Halos}
use distributed_game_of_life.Simulation.Engine.Shown.{IsStep, IsNeighbour, IsId, AreHalos}
use distributed_game_of_life.Simulation.Registry.{spawn_in, ChunkState, Chunks}
use distributed_game_of_life.Simulation.Registry.Invariant.{IsRegistry, rows_in}
use distributed_game_of_life.Simulation.TickAll.{HalosByChunk, halos_of, shifted}

-- The keys of the map are IDs: their coordinates are 64-bit integers.
abbrev pub HasIds : Chunks → Type 0
HasIds m = (k : ChunkId) (state : ChunkState) → find k m ≡ some state → IsId k

pub spawn_in-HasIds :
    (id : ChunkId) (x y : ℕ) (found : Option ChunkState) (m : Chunks)
    → IsId id
    → HasIds m
    → HasIds (spawn_in id x y found m)
unfolding spawn_in
spawn_in-HasIds id x y none m hid ids k st e = ids k st e
spawn_in-HasIds id x y (some state) m hid ids k st e = elim (Bool-cases (id_eq id k)) [
  | inl same ↦ rw (sym ((id_eq_iff id k).0 same)) hid
  | inr other ↦ ids k st (rw (find-put id k _ m, other) at e)
]

-- `m'` has the chunks of `m` and perhaps more, and the same world.
pub record IsGrown (m m' : Chunks) : Type 0 where
  pub registry : IsRegistry m'
  pub ids : HasIds m'
  pub keeps : (k : ChunkId) (state : ChunkState) → find k m ≡ some state → find k m' ≡ some state
  pub same : (k : ChunkId) → rows_in k m' ≡ rows_in k m

-- The halos go to active chunks, from chunks around them.
pub record AreGiven (m : Chunks) (given : HalosByChunk) : Type 0 where
  pub around : (n : ChunkId) → AreHalos n (halos_of n given)
  pub distinct : (n : ChunkId) → DistinctKeys (halos_of n given)
  pub awake :
      (n e : ChunkId) (rows : Rows)
      → find e (halos_of n given) ≡ some rows
      → (state : ChunkState) × (find n m ≡ some state)

pub none_before : (m m' : Chunks) (k : ChunkId) → IsGrown m m' → find k m' ≡ none → find k m ≡ none
none_before m m' k g e = elim (Option-cases (find k m)) [
  | inl absent ↦ absent
  | inr (state, there) ↦ absurd (cc (sym (g.keeps k state there) ∙ e))
]

pub put-AreHalos :
    (n e : ChunkId) (rows : Rows) (halos : Halos)
    → IsNeighbour n e
    → IsValid rows
    → AreHalos n halos
    → AreHalos n (put e rows halos)
unfolding put
put-AreHalos n e rows [] near v h = (near, v, tt)
put-AreHalos n e rows ((j, old) ∷ halos) near v h = elim (Bool-cases (id_eq j e)) [
  | inl same ↦ rw same (h.0, v, h.2)
  | inr other ↦ rw other (h.0, h.1, put-AreHalos n e rows halos near v h.2)
]

-- The other way from a chunk to its neighbour.
abbrev pub opposite : ℤ → ℤ
opposite d = if eq_ℤ d (negsuc 0) then pos 1 else if eq_ℤ d (pos 1) then negsuc 0 else pos 0

pub opposite-IsStep : (d : ℤ) → IsStep d → IsStep (opposite d)
opposite-IsStep d s = ground arith

pub add64-opposite : (a d : ℤ) → IsInt64 a → IsStep d → a ≡ add64 (add64 a d) (opposite d)
unfolding add64
add64-opposite a d ha s = ground arith

pub opposite-apart :
    (dx dy : ℤ)
    → IsStep dx
    → IsStep dy
    → (eq_ℤ dx (pos 0) && eq_ℤ dy (pos 0)) ≡ false
    → (eq_ℤ (opposite dx) (pos 0) && eq_ℤ (opposite dy) (pos 0)) ≡ false
opposite-apart dx dy sx sy apart = ground arith

-- A way to one of the eight neighbours.
pub record IsOffsetPair (off : ℤ × ℤ) : Type 0 where
  pub step_x : IsStep off.0
  pub step_y : IsStep off.1
  pub apart : (eq_ℤ off.0 (pos 0) && eq_ℤ off.1 (pos 0)) ≡ false

pub shifted-IsNeighbour :
    (eid : ChunkId) (dx dy : ℤ)
    → IsId eid
    → IsOffsetPair (dx, dy)
    → IsNeighbour (shifted eid dx dy) eid
shifted-IsNeighbour eid dx dy hid off = record {
  dx = opposite dx;
  dy = opposite dy;
  step_x = opposite-IsStep dx off.step_x;
  step_y = opposite-IsStep dy off.step_y;
  apart = opposite-apart dx dy off.step_x off.step_y off.apart;
  at_x = add64-opposite eid.x dx hid.0 off.step_x;
  at_y = add64-opposite eid.y dy hid.1 off.step_y;
}

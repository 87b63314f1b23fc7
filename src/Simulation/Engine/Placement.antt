-- ===== src/Simulation/Engine/Placement.antt =====
-- addToScratch: a chunk placed anywhere near the grid adds, to each cell's count, the number of the
-- cell's neighbours that are live cells of the placed chunk.
use mathlib.Core.Path.{fun_ext}
use distributed_game_of_life.Prelude.{ℕ, suc, ◌+◌, ◌-◌, ◌≡◌, ◌<◌, ◌≤◌, ap, sym, Bool, ◌&&◌}
use distributed_game_of_life.Prelude.{
  leb, ltb, ◌==◌, one_if, List, [], ◌∷◌, get_or, arith, Bool-cases, inl, inr, ==→≡, contains,
  Ascends, Ascends-le, contains_below, for_below_inv,
}
use distributed_game_of_life.Prelude.Int.{ℤ, pos, pos_part, neg_part, eq_ℤ, add64}
use distributed_game_of_life.Words.Bits.{test_bit}
use distributed_game_of_life.Words.LiveBits.{
  live_bits, each, for_each_bit_lem, contains-live_bits, live_bits-Ascends,
}
use distributed_game_of_life.Simulation.Chunk.{Rows}
use distributed_game_of_life.Simulation.Chunk.Cells.{cell, IsValid}
use distributed_game_of_life.Simulation.Engine.{Counts, bump, add_row, add_to_scratch}
use distributed_game_of_life.Simulation.Engine.Scratch.{
  IsScratch, Adds, Adds-trans, Adds-none, Adds-ext, around, IsPad, bump-Adds,
}

-- No sum of such an offset and a local coordinate leaves `int`.
abbrev pub IsOffset : ℤ → Type 0
IsOffset z = (pos_part z ≤ 200) × (neg_part z ≤ 200)

-- The padded coordinate `q` falls into the chunk that is placed at `off`, and there at `local off q`.
abbrev pub reaches : ℤ → ℕ → Bool
reaches off q = leb (pos_part off) (q + neg_part off) && ltb (q + neg_part off) (pos_part off + 64)

abbrev pub local : ℤ → ℕ → ℕ
local off q = q + neg_part off - pos_part off

-- 1 where the placed chunk has a live cell at the padded coordinates.
abbrev pub placed : Rows → ℤ → ℤ → ℕ → ℕ → ℕ
placed rows off_x off_y qx qy =
    one_if (reaches off_x qx && reaches off_y qy && cell rows (local off_x qx) (local off_y qy))

pub around_ext :
    (g h : ℕ → ℕ → ℕ) (x y : ℕ) → ((qx qy : ℕ) → g qx qy ≡ h qx qy) → around g x y ≡ around h x y
around_ext g h x y e =
    ap (λ (k : ℕ → ℕ → ℕ). around k x y) (fun_ext (λ qx. fun_ext (λ qy. e qx qy)))

-- The neighbours of a cell of the chunk lie in the padded grid.
pub around_ext_in :
    (g h : ℕ → ℕ → ℕ) (x y : ℕ)
    → x < 64
    → y < 64
    → ((qx qy : ℕ) → qx < 66 → qy < 66 → g qx qy ≡ h qx qy)
    → around g x y ≡ around h x y
around_ext_in g h x y hx hy e =
    let at_q =
      λ (qx qy : ℕ) (p : qx ≤ x + 2) (q : qy ≤ y + 2). e qx qy (omega arith) (omega arith) in
    omega (
      arith,
      at_q x y (omega arith) (omega arith),
      at_q (x + 1) y (omega arith) (omega arith),
      at_q (x + 2) y (omega arith) (omega arith),
      at_q x (y + 1) (omega arith) (omega arith),
      at_q (x + 2) (y + 1) (omega arith) (omega arith),
      at_q x (y + 2) (omega arith) (omega arith),
      at_q (x + 1) (y + 2) (omega arith) (omega arith),
      at_q (x + 2) (y + 2) (omega arith) (omega arith),
    )

pub Adds-around :
    {a b c : Counts} (g h k : ℕ → ℕ → ℕ)
    → Adds a b (around g)
    → Adds b c (around h)
    → ((qx qy : ℕ) → g qx qy + h qx qy ≡ k qx qy)
    → Adds a c (around k)
Adds-around g h k p q e =
    Adds-ext (around k) (Adds-trans p q)
      (λ x y _ _. omega (arith, around_ext (λ qx qy. g qx qy + h qx qy) k x y e))

placed_column :
    (off : ℤ) (l q : ℕ)
    → IsOffset off
    → l < 64
    → eq_ℤ (add64 off (pos l)) (pos q) ≡ (reaches off q && l == local off q)
unfolding add64
placed_column off l q h small = ground arith

IsPad-IsOffset : (off : ℤ) (l : ℕ) → IsOffset off → l < 64 → IsPad (add64 off (pos l))
unfolding add64
IsPad-IsOffset off l h small = ground arith

module _ (off_x : ℤ) (hx : IsOffset off_x) where
  abbrev bits_at : ℤ → List ℕ → ℕ → ℕ → ℕ
  bits_at pad_y xs qx qy =
      one_if (reaches off_x qx && contains (local off_x qx) xs && eq_ℤ pad_y (pos qy))

  each-bump-Adds :
      (lo : ℕ) (pad_y : ℤ) (xs : List ℕ) (counts : Counts)
      → IsPad pad_y
      → Ascends lo 64 xs
      → IsScratch counts
      → Adds counts
          (each (λ x. bump (add64 off_x (pos x)) pad_y) xs counts)
          (around (bits_at pad_y xs))
  each-bump-Adds lo pad_y [] counts hy a s =
      Adds-ext (around (bits_at pad_y [])) (Adds-none counts s)
        (λ x y _ _. sym (around_ext (bits_at pad_y []) (λ _ _. 0) x y (λ qx qy. ground arith)))
  each-bump-Adds lo pad_y (x ∷ xs) counts hy a s =
      let small = Ascends-le (suc x) 64 xs a.1 in
      let first =
        bump-Adds (add64 off_x (pos x)) pad_y counts (IsPad-IsOffset off_x x hx small) hy s in
      Adds-around _ (bits_at pad_y xs) (bits_at pad_y (x ∷ xs)) first
        (each-bump-Adds (suc x) pad_y xs (bump (add64 off_x (pos x)) pad_y counts) hy a.1
          first.scratch)
        (λ qx qy.
          rw (placed_column off_x x qx hx small)
            (ground (arith, contains_below (suc x) 64 (local off_x qx) xs a.1)))

  module _ (rows : Rows) (off_y : ℤ) (hy : IsOffset off_y) (valid : IsValid rows) where
    abbrev row_at : ℕ → ℕ → ℕ → ℕ
    row_at k qx qy = one_if (
        reaches off_x qx
        && test_bit (get_or rows k 0) (local off_x qx)
        && eq_ℤ (add64 off_y (pos k)) (pos qy))

    contains-row :
        (k qx : ℕ)
        → (reaches off_x qx && contains (local off_x qx) (live_bits 64 0 (get_or rows k 0)))
          ≡ (reaches off_x qx && test_bit (get_or rows k 0) (local off_x qx))
    contains-row k qx =
        let whole : local off_x qx - 0 ≡ local off_x qx = omega arith in
        ground (arith, rw whole at (contains-live_bits 64 0 (get_or rows k 0) (local off_x qx)))

    -- The test for an empty row only skips a loop that does nothing.
    add_row-each :
        (k : ℕ) (counts : Counts)
        → add_row rows off_x off_y k counts
          ≡ each
              (λ x. bump (add64 off_x (pos x)) (add64 off_y (pos k)))
              (live_bits 64 0 (get_or rows k 0))
              counts
    unfolding add_row
    add_row-each k counts =
        let body = λ (x : ℕ). bump (add64 off_x (pos x)) (add64 off_y (pos k)) in
        elim (Bool-cases (get_or rows k 0 == 0)) [
          | inl none_live ↦
              rw (add_row, ==→≡ (get_or rows k 0) 0 none_live)
                (for_each_bit_lem body 64 0 counts (omega arith) (omega arith))
          | inr some_live ↦
              rw (add_row, some_live)
                (for_each_bit_lem body 64 (get_or rows k 0) counts (valid.words k) (omega arith))
        ]

    add_row-Adds :
        (k : ℕ) (counts : Counts)
        → k < 64
        → IsScratch counts
        → Adds counts (add_row rows off_x off_y k counts) (around (row_at k))
    add_row-Adds k counts small s =
        let bits = live_bits 64 0 (get_or rows k 0) in
        let run =
          each-bump-Adds 0 (add64 off_y (pos k)) bits counts (IsPad-IsOffset off_y k hy small)
            (live_bits-Ascends 64 0 (get_or rows k 0)) s in
        rw (add_row-each k counts) (
          Adds-ext (around (row_at k)) run (λ x y _ _.
            around_ext (bits_at (add64 off_y (pos k)) bits) (row_at k) x y
              (λ qx qy. ground (arith, contains-row k qx))))

    -- The part of the placed chunk above its row `k`.
    abbrev placed_above : ℕ → ℕ → ℕ → ℕ
    placed_above k qx qy = one_if (
        reaches off_x qx
        && reaches off_y qy
        && ltb (local off_y qy) k
        && cell rows (local off_x qx) (local off_y qy))

    placed_above-suc :
        (k qx qy : ℕ) → k < 64 → placed_above k qx qy + row_at k qx qy ≡ placed_above (k + 1) qx qy
    unfolding cell
    placed_above-suc k qx qy small =
        rw (placed_column off_y k qy hy small) (elim (Bool-cases (k == local off_y qy)) [
          | inl here ↦ ground (arith, ==→≡ k (local off_y qy) here)
          | inr other ↦ ground arith
        ])

    -- addToScratch adds, to the count of each cell, its live neighbours in the placed chunk.
    pub add_to_scratch-Adds :
        (counts : Counts)
        → IsScratch counts
        → Adds counts (add_to_scratch counts rows off_x off_y) (around (placed rows off_x off_y))
    unfolding add_to_scratch
    add_to_scratch-Adds counts s =
        let start =
          Adds-ext (around (placed_above 0)) (Adds-none counts s)
            (λ x y _ _. around_ext (λ _ _. 0) (placed_above 0) x y (λ qx qy. ground arith)) in
        let whole =
          for_below_inv (λ k c. Adds counts c (around (placed_above k))) (add_row rows off_x off_y)
            64 counts start
            (λ k small c p.
              Adds-around (placed_above k) (row_at k) (placed_above (k + 1)) p
                (add_row-Adds k c small p.scratch) (λ qx qy. placed_above-suc k qx qy small)) in
        Adds-ext (around (placed rows off_x off_y)) whole (λ x y _ _.
          around_ext (placed_above 64) (placed rows off_x off_y) x y (λ qx qy. ground arith))

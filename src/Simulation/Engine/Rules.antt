-- ===== src/Simulation/Engine/Rules.antt =====
-- Step 2 of TickBitset: each cell of the new rows is what the rules make of its old state and its count.
use Prim.Native.Nat.{bit_or}
use distributed_game_of_life.Prelude.{ℕ, ◌+◌, ◌*◌, ◌^◌, ◌≡◌, ◌<◌, ap, Bool, true, false, ◌&&◌, ◌||◌}
use distributed_game_of_life.Prelude.{
  ltb, ◌==◌, if◌then◌else◌, get_or, set, arith, Bool-cases, inl, inr, for_below_inv, ◌∙◌, ==→≡,
}
use distributed_game_of_life.Words.{shl}
use distributed_game_of_life.Words.Bits.{
  test_bit, test_bit-zero, test_bit-or, test_bit-two_pow, shl_one, shr-and-one, two_pow-lt-word,
  bit_or-lt,
}
use distributed_game_of_life.Simulation.Chunk.{Rows, no_rows}
use distributed_game_of_life.Simulation.Chunk.Cells.{
  cell, IsValid, cell-set, set-IsValid, no_rows-IsValid, cell-no_rows,
}
use distributed_game_of_life.Simulation.Engine.{Counts, apply_rule, next_row, next_rows}
use distributed_game_of_life.Simulation.Engine.Scratch.{at}

-- Conway's rules: a cell lives in the next generation if it has three live neighbours, or two and is alive.
abbrev pub lives : Bool → ℕ → Bool
lives alive n = n == 3 || n == 2 && alive

step_over : (k x : ℕ) (b : Bool) → (k == x) ≡ false → (ltb x k && b) ≡ (ltb x (k + 1) && b)
step_over k x b h = ground arith

step_beside :
    (k x : ℕ) (b : Bool) → (k == x) ≡ false → (ltb x k && b || false) ≡ (ltb x (k + 1) && b)
step_beside k x b h = ground arith

row_now_done :
    (x y k : ℕ) (b c : Bool) → x < 64 → k ≡ y → b ≡ c → (ltb x 64 && b) ≡ (ltb y (k + 1) && c)
row_now_done x y k b c small same e = ground arith

none_before : (x : ℕ) (b : Bool) → false ≡ (ltb x 0 && b)
none_before x b = ground arith

module _ (counts : Counts) (rows : Rows) where
  abbrev ruled : ℕ → ℕ → Bool
  ruled x y = lives (cell rows x y) (at counts (x + 1) (y + 1))

  abbrev RowDone : ℕ → ℕ → ℕ → Type 0
  RowDone y k row = (row < 2 ^ 64) × ((x : ℕ) → test_bit row x ≡ (ltb x k && ruled x y))

  apply_rule-eq :
      (y k row : ℕ)
      → apply_rule counts (get_or rows y 0) ((y + 1) * 66) k row
        ≡ (if ruled k y then bit_or row (shl 1 k) else row)
  unfolding apply_rule cell
  apply_rule-eq y k row = ground (arith, shr-and-one (get_or rows y 0) k)

  apply_rule-RowDone :
      (y k row : ℕ)
      → k < 64
      → RowDone y k row
      → RowDone y (k + 1) (apply_rule counts (get_or rows y 0) ((y + 1) * 66) k row)
  apply_rule-RowDone y k row small (fits, bits) =
      rw (apply_rule-eq y k row) (elim (Bool-cases (ruled k y)) [
        | inl born ↦ rw born (
          bit_or-lt 64 row (shl 1 k) fits (omega (arith, shl_one k small, two_pow-lt-word k small)),
          λ x.
              rw (test_bit-or row (shl 1 k) x, shl_one k small, test_bit-two_pow k x, bits x)
                (elim (Bool-cases (k == x)) [
                  | inl here ↦
                      let set_now : ruled x y ≡ true = rw (==→≡ k x here) at born in
                      rw set_now (ground arith)
                  | inr other ↦ rw other (step_beside k x (ruled x y) other)
                ]),
        )
        | inr dead ↦ rw dead (
          fits,
          λ x. bits x ∙ elim (Bool-cases (k == x)) [
            | inl here ↦
                let clear_now : ruled x y ≡ false = rw (==→≡ k x here) at dead in
                rw clear_now (ground arith)
            | inr other ↦ step_over k x (ruled x y) other
          ],
        )
      ])

  next_row-RowDone : (y : ℕ) → RowDone y 64 (next_row counts rows y)
  unfolding next_row
  next_row-RowDone y =
      for_below_inv (RowDone y) (apply_rule counts (get_or rows y 0) ((y + 1) * 66)) 64 0
        (omega arith, λ x. test_bit-zero x ∙ none_before x (ruled x y))
        (λ k small row done. apply_rule-RowDone y k row small done)

  abbrev RowsDone : ℕ → Rows → Type 0
  RowsDone k next =
      IsValid next × ((x y : ℕ) → x < 64 → y < 64 → cell next x y ≡ (ltb y k && ruled x y))

  -- Step 2 makes valid rows, in which each cell is what the rules make of its state and its count.
  pub next_rows_lem :
      IsValid (next_rows counts rows)
      × ((x y : ℕ) → x < 64 → y < 64 → cell (next_rows counts rows) x y ≡ ruled x y)
  unfolding next_rows
  next_rows_lem =
      let body = λ (y : ℕ) (next : Rows). set next y (next_row counts rows y) in
      let done =
        for_below_inv RowsDone body 64 no_rows
          (no_rows-IsValid, λ x y hx hy. cell-no_rows x y ∙ none_before y (ruled x y))
          (λ k small next done.
            let row = next_row-RowDone k in
            (
              set-IsValid next 0 k done.0.size (omega arith) small (next_row counts rows k) row.0
                  done.0,
              λ x y hx hy.
                  cell-set next 0 k done.0.size (omega arith) small (next_row counts rows k) x y
                  ∙ elim (Bool-cases (k == y)) [
                    | inl here ↦
                        let same = ==→≡ k y here in
                        rw (here, row.1 x)
                          (row_now_done x y k (ruled x k) (ruled x y) hx same
                            (ap (λ j. ruled x j) same))
                    | inr other ↦ rw (other, done.1 x y hx hy) (step_over k y (ruled x y) other)
                  ],
            )) in
      (done.0, λ x y hx hy. done.1 x y hx hy ∙ ground arith)

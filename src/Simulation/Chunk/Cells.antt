-- ===== src/Simulation/Chunk/Cells.antt =====
-- Rows as a grid of cells: cell (x, y) is bit x of row y. What AddCell, RemoveCell and SetRows do to
-- each cell.
use distributed_game_of_life.Prelude.{ℕ, ◌^◌, ◌≡◌, ◌<◌, ◌≤◌, refl, ◌∙◌}
use distributed_game_of_life.Prelude.{Bool, false, not, ◌||◌, ◌&&◌, ltb, ◌==◌, if◌then◌else◌, arith}
use distributed_game_of_life.Prelude.{
  length, get_or, set, length-set, get_or-set_self, get_or-set_ne, get_or-replicate, get_or_ext,
  get_or_above, Bool-cases, ==→≡, ==→≢, inl, inr,
}
use Prim.Native.Nat.{bit_or}
use distributed_game_of_life.Words.{shl, and_not}
use distributed_game_of_life.Words.Bits.{
  test_bit, test_bit-or, test_bit-and_not, test_bit-zero, test_bit-two_pow, test_bit_ext,
  test_bit_above, shl_one, bit_or-lt, and_not-lt, two_pow-lt-word,
}
use distributed_game_of_life.Simulation.Chunk.{
  Rows, Chunk, chunk_size, no_rows, raise_bit, clear_bit, add_cell, remove_cell,
}

-- Cell (x, y) is alive.
unfoldable pub cell : Rows → ℕ → ℕ → Bool
cell rows x y = test_bit (get_or rows y 0) x

-- 64 rows of 64 bits.
pub record IsValid (rows : Rows) : Type 0 where
  pub size : length rows ≡ chunk_size
  pub words : (y : ℕ) → get_or rows y 0 < 2 ^ 64

pub no_rows-IsValid : IsValid no_rows
no_rows-IsValid = record {
  size = refl;
  words = λ y. rw (get_or-replicate {A = ℕ} 64 y 0) (omega arith);
}

pub cell-no_rows : (x y : ℕ) → cell no_rows x y ≡ false
unfolding cell
cell-no_rows x y = rw (get_or-replicate {A = ℕ} 64 y 0) (test_bit-zero x)

pub cell_above : (rows : Rows) (x y : ℕ) → IsValid rows → 64 ≤ x → cell rows x y ≡ false
unfolding cell
cell_above rows x y v le = test_bit_above 64 (get_or rows y 0) x (v.words y) le

pub cell_below : (rows : Rows) (x y : ℕ) → IsValid rows → 64 ≤ y → cell rows x y ≡ false
unfolding cell
cell_below rows x y v le = rw (get_or_above rows y 0 (omega (arith, v.size))) (test_bit-zero x)

-- Rows with the same cells are equal.
pub cell_ext :
    (rows others : Rows)
    → IsValid rows
    → IsValid others
    → ((x y : ℕ) → x < 64 → y < 64 → cell rows x y ≡ cell others x y)
    → rows ≡ others
unfolding cell
cell_ext rows others v w h = get_or_ext 0 rows others (omega (arith, v.size, w.size)) (λ y lt.
    test_bit_ext (get_or rows y 0) (get_or others y 0) (λ x. elim (Bool-cases (ltb x 64)) [
      | inl inside ↦ h x y (ground arith) (omega (arith, v.size))
      | inr outside ↦ ground (arith, cell_above rows x y v, cell_above others x y w)
    ]))

module _ (rows : Rows) (x y : ℕ) (size : length rows ≡ 64) (hx : x < 64) (hy : y < 64) where
  pub cell-set :
      (word i j : ℕ)
      → cell (set rows y word) i j ≡ (if y == j then test_bit word i else cell rows i j)
  unfolding cell
  cell-set word i j = elim (Bool-cases (y == j)) [
    | inl same ↦ ground (arith, get_or-set_self rows y word 0 (omega arith), ==→≡ y j same)
    | inr other ↦ ground (arith, get_or-set_ne rows y j word 0 (==→≢ y j other))
  ]

  -- Setting a bit makes one cell alive and keeps every other.
  pub cell-raise_bit :
      (i j : ℕ) → cell (raise_bit rows x y) i j ≡ (x == i && y == j || cell rows i j)
  unfolding raise_bit cell
  cell-raise_bit i j =
      let row = get_or rows y 0 in
      ground (
        arith,
        cell-set (bit_or row (shl 1 x)) i j,
        test_bit-or row (shl 1 x) i,
        shl_one x hx,
        test_bit-two_pow x i,
      )

  pub cell-clear_bit :
      (i j : ℕ) → cell (clear_bit rows x y) i j ≡ (not (x == i && y == j) && cell rows i j)
  unfolding clear_bit cell
  cell-clear_bit i j =
      let row = get_or rows y 0 in
      ground (
        arith,
        cell-set (and_not row (shl 1 x)) i j,
        test_bit-and_not row (shl 1 x) i,
        shl_one x hx,
        test_bit-two_pow x i,
      )

  pub set-IsValid : (word : ℕ) → word < 2 ^ 64 → IsValid rows → IsValid (set rows y word)
  set-IsValid word small v = record {
    size = length-set rows y word ∙ size;
    words = λ j. elim (Bool-cases (y == j)) [
      | inl same ↦ ground (arith, get_or-set_self rows y word 0 (omega arith), ==→≡ y j same)
      | inr other ↦ ground (arith, get_or-set_ne rows y j word 0 (==→≢ y j other), v.words j)
    ];
  }

  pub raise_bit-IsValid : IsValid rows → IsValid (raise_bit rows x y)
  unfolding raise_bit
  raise_bit-IsValid v =
      set-IsValid _
        (bit_or-lt 64 (get_or rows y 0) (shl 1 x) (v.words y)
          (omega (arith, shl_one x hx, two_pow-lt-word x hx)))
        v

  pub clear_bit-IsValid : IsValid rows → IsValid (clear_bit rows x y)
  unfolding clear_bit
  clear_bit-IsValid v = set-IsValid _ (and_not-lt 64 (get_or rows y 0) (shl 1 x) (v.words y)) v

-- Both local coordinates are below ChunkSize.
abbrev pub in_chunk : ℕ → ℕ → Bool
in_chunk x y = ltb x 64 && ltb y 64

add_cell_in :
    (c : Chunk) (x y : ℕ)
    → x < 64
    → y < 64
    → add_cell c x y ≡ record c { rows = raise_bit c.rows x y }
unfolding add_cell
add_cell_in c x y hx hy = ground arith

add_cell_out : (c : Chunk) (x y : ℕ) → in_chunk x y ≡ false → add_cell c x y ≡ c
unfolding add_cell
add_cell_out c x y h = ground arith

remove_cell_in :
    (c : Chunk) (x y : ℕ)
    → x < 64
    → y < 64
    → remove_cell c x y ≡ record c { rows = clear_bit c.rows x y }
unfolding remove_cell
remove_cell_in c x y hx hy = ground arith

remove_cell_out : (c : Chunk) (x y : ℕ) → in_chunk x y ≡ false → remove_cell c x y ≡ c
unfolding remove_cell
remove_cell_out c x y h = ground arith

-- AddCell keeps a chunk valid and its ID; it makes cell (x, y) alive if both coordinates are below 64,
-- and leaves every other cell as it was. With a coordinate from 64 on it changes nothing.
pub add_cell_lem :
    (c : Chunk) (x y : ℕ)
    → IsValid c.rows
    → IsValid (add_cell c x y).rows
      × ((add_cell c x y).id ≡ c.id)
      × ((i j : ℕ)
          → cell (add_cell c x y).rows i j ≡ (in_chunk x y && x == i && y == j || cell c.rows i j))
add_cell_lem c x y v = elim (Bool-cases (in_chunk x y)) [
  | inl inside ↦
      let hx : x < 64 = ground arith in
      let hy : y < 64 = ground arith in
      rw (add_cell_in c x y hx hy, inside)
        (
          raise_bit-IsValid c.rows x y v.size hx hy v,
          refl,
          λ i j. cell-raise_bit c.rows x y v.size hx hy i j,
        )
  | inr outside ↦ rw (add_cell_out c x y outside, outside) (v, refl, λ i j. refl)
]

-- RemoveCell keeps a chunk valid and its ID; it clears cell (x, y) if both coordinates are below 64,
-- and leaves every other cell as it was. With a coordinate from 64 on it changes nothing.
pub remove_cell_lem :
    (c : Chunk) (x y : ℕ)
    → IsValid c.rows
    → IsValid (remove_cell c x y).rows
      × ((remove_cell c x y).id ≡ c.id)
      × ((i j : ℕ)
          → cell (remove_cell c x y).rows i j
            ≡ (not (in_chunk x y && x == i && y == j) && cell c.rows i j))
remove_cell_lem c x y v = elim (Bool-cases (in_chunk x y)) [
  | inl inside ↦
      let hx : x < 64 = ground arith in
      let hy : y < 64 = ground arith in
      rw (remove_cell_in c x y hx hy, inside)
        (
          clear_bit-IsValid c.rows x y v.size hx hy v,
          refl,
          λ i j. cell-clear_bit c.rows x y v.size hx hy i j,
        )
  | inr outside ↦ rw (remove_cell_out c x y outside, outside) (v, refl, λ i j. refl)
]

-- ===== src/Simulation/Chunk/Offsets.antt =====
-- RowsToOffsets and OffsetsToRows are inverse: the sparse encoding on the wire and in storage.
use distributed_game_of_life.Prelude.{
  ℕ, suc, ◌+◌, ◌*◌, ◌/◌, ◌%◌, ◌^◌, ◌≡◌, ◌<◌, ◌≤◌, refl, ◌∙◌, sym,
}
use distributed_game_of_life.Prelude.{◌||◌, ◌&&◌, leb, ltb, ◌==◌, List, [], ◌∷◌, ◌++◌, arith, map}
use distributed_game_of_life.Prelude.{
  length, get_or, Bool-cases, inl, inr, contains, contains-append, Ascends, Ascends-le,
  Ascends-append, contains-Ascends, ◌-◌,
}
use mathlib.Core.List.{append_assoc, append-nil}
use distributed_game_of_life.Words.Bits.{test_bit, test_bit-zero}
use distributed_game_of_life.Words.LiveBits.{
  live_bits, each, for_each_bit_lem, contains-live_bits, live_bits-Ascends,
}
use distributed_game_of_life.Simulation.Chunk.{
  Rows, no_rows, offset, append_offsets, rows_to_offsets, raise_offsets, offsets_to_rows,
}
use distributed_game_of_life.Simulation.Chunk.Cells.{
  cell, IsValid, no_rows-IsValid, cell-no_rows, cell_ext, cell-raise_bit, raise_bit-IsValid,
  cell_above, cell_below,
}

-- The offsets of one row.
unfoldable pub row_offsets : ℕ → ℕ → List ℕ
row_offsets y row = map (offset y) (live_bits 64 0 row)

each-append :
    (y : ℕ) (xs out : List ℕ) → each (λ x o. o ++ offset y x ∷ []) xs out ≡ out ++ map (offset y) xs
each-append y [] out = sym (append-nil out)
each-append y (x ∷ xs) out =
    each-append y xs (out ++ offset y x ∷ [])
    ∙ append_assoc out (offset y x ∷ []) (map (offset y) xs)

offset_lem : (y x : ℕ) → y < 64 → x < 64 → offset y x ≡ y * 64 + x
unfolding offset
offset_lem y x hy hx = omega arith

contains-map-offset :
    (lo y o : ℕ) (xs : List ℕ)
    → y < 64
    → o < 4096
    → Ascends lo 64 xs
    → contains o (map (offset y) xs) ≡ (o / 64 == y && contains (o % 64) xs)
contains-map-offset lo y o [] hy ho a = ground arith
contains-map-offset lo y o (x ∷ xs) hy ho a =
    let hx = Ascends-le (suc x) 64 xs a.1 in
    ground (arith, offset_lem y x hy hx, contains-map-offset (suc x) y o xs hy ho a.1)

map-offset-Ascends :
    (lo y : ℕ) (xs : List ℕ)
    → y < 64
    → Ascends lo 64 xs
    → Ascends (y * 64 + lo) (suc y * 64) (map (offset y) xs)
map-offset-Ascends lo y [] hy a = omega arith
map-offset-Ascends lo y (x ∷ xs) hy a =
    let hx = Ascends-le (suc x) 64 xs a.1 in
    let same = offset_lem y x hy hx in
    let next : suc (offset y x) ≡ y * 64 + suc x = omega arith in
    (omega arith, rw next (map-offset-Ascends (suc x) y xs hy a.1))

-- The slice that RowsToOffsets returns for the rows from row `y` on.
unfoldable pub offsets_from : ℕ → Rows → List ℕ
unfolding row_offsets
offsets_from y [] = []
offsets_from y (row ∷ rows) = row_offsets y row ++ offsets_from (y + 1) rows

abbrev Words : Rows → Type 0
Words rows = (y : ℕ) → get_or rows y 0 < 2 ^ 64

append_offsets_lem :
    (y : ℕ) (rows : Rows) (out : List ℕ)
    → Words rows
    → append_offsets y rows out ≡ out ++ offsets_from y rows
unfolding append_offsets offsets_from
append_offsets_lem y [] out v = sym (append-nil out)
append_offsets_lem y (row ∷ rows) out v =
    rw
      (
        for_each_bit_lem (λ x o. o ++ offset y x ∷ []) 64 row out (v 0) (omega arith),
        each-append y (live_bits 64 0 row) out,
      )
      (append_offsets_lem (y + 1) rows (out ++ row_offsets y row) (λ j. v (suc j))
        ∙ append_assoc out (row_offsets y row) (offsets_from (y + 1) rows))

pub rows_to_offsets-eq : (rows : Rows) → IsValid rows → rows_to_offsets rows ≡ offsets_from 0 rows
unfolding rows_to_offsets
rows_to_offsets-eq rows v = append_offsets_lem 0 rows [] v.words

contains-row_offsets :
    (y row o : ℕ)
    → y < 64
    → o < 4096
    → contains o (row_offsets y row) ≡ (o / 64 == y && test_bit row (o % 64))
unfolding row_offsets
contains-row_offsets y row o hy ho =
    let whole : o % 64 - 0 ≡ o % 64 = omega arith in
    contains-map-offset 0 y o (live_bits 64 0 row) hy ho (live_bits-Ascends 64 0 row)
    ∙ rw (contains-live_bits 64 0 row (o % 64), whole) (ground arith)

get_or-after :
    (row : ℕ) (rows : Rows) (k y : ℕ)
    → y < k
    → get_or (row ∷ rows) (k - y) 0 ≡ get_or rows (k - (y + 1)) 0
get_or-after row rows k y h = let next : k - y ≡ suc (k - (y + 1)) = omega arith in rw next

contains-offsets_from :
    (o y : ℕ) (rows : Rows)
    → y + length rows ≤ 64
    → o < 4096
    → contains o (offsets_from y rows)
      ≡ (leb y (o / 64) && test_bit (get_or rows (o / 64 - y) 0) (o % 64))
unfolding offsets_from
contains-offsets_from o y [] fits ho = ground (arith, test_bit-zero (o % 64))
contains-offsets_from o y (row ∷ rows) fits ho =
    let rest = contains-offsets_from o (y + 1) rows (omega arith) ho in
    let first = contains-row_offsets y row o (omega arith) ho in
    contains-append o (row_offsets y row) (offsets_from (y + 1) rows)
    ∙ elim (Bool-cases (o / 64 == y)) [
      | inl here ↦
          let at_first : o / 64 - y ≡ 0 = ground arith in rw at_first (ground (arith, rest, first))
      | inr other ↦ ground (arith, rest, first, get_or-after row rows (o / 64) y)
    ]

offsets_from-Ascends :
    (y : ℕ) (rows : Rows) → y + length rows ≤ 64 → Ascends (y * 64) 4096 (offsets_from y rows)
unfolding offsets_from row_offsets
offsets_from-Ascends y [] fits = omega arith
offsets_from-Ascends y (row ∷ rows) fits =
    let at_y : y * 64 + 0 ≡ y * 64 = omega arith in
    let first =
      map-offset-Ascends 0 y (live_bits 64 0 row) (omega arith) (live_bits-Ascends 64 0 row) in
    let next : (y + 1) * 64 ≡ suc y * 64 = omega arith in
    let rest = offsets_from-Ascends (y + 1) rows (omega arith) in
    Ascends-append (y * 64) (suc y * 64) 4096 (row_offsets y row) (offsets_from (y + 1) rows)
      (rw at_y at first) (rw next at rest)

-- Of valid rows, RowsToOffsets lists exactly the offsets y * 64 + x of the live cells, each once, in
-- ascending order and all below 4096.
pub rows_to_offsets_lem :
    (rows : Rows)
    → IsValid rows
    → Ascends 0 4096 (rows_to_offsets rows)
      × ((o : ℕ) → contains o (rows_to_offsets rows) ≡ (ltb o 4096 && cell rows (o % 64) (o / 64)))
unfolding cell
rows_to_offsets_lem rows v = rw (rows_to_offsets-eq rows v) (
  offsets_from-Ascends 0 rows (omega (arith, v.size)),
  λ o. elim (Bool-cases (ltb o 4096)) [
    | inl low ↦
        let whole : o / 64 - 0 ≡ o / 64 = omega arith in
        rw low (
          contains-offsets_from o 0 rows (omega (arith, v.size)) (ground arith)
          ∙ rw whole (ground arith))
    | inr high ↦ rw high (
        contains-Ascends 0 4096 o _ (offsets_from-Ascends 0 rows (omega (arith, v.size)))
          (ground arith))
  ],
)

raise_offsets-IsValid :
    (offsets : List ℕ) (rows : Rows) → IsValid rows → IsValid (raise_offsets offsets rows)
unfolding raise_offsets
raise_offsets-IsValid [] rows v = v
raise_offsets-IsValid (o ∷ os) rows v = elim (Bool-cases (ltb (o / 64) 64)) [
  | inl inside ↦ rw inside (
      raise_offsets-IsValid os _
        (raise_bit-IsValid rows (o % 64) (o / 64) v.size (omega arith) (ground arith) v))
  | inr outside ↦ rw outside (raise_offsets-IsValid os rows v)
]

cell-raise_offsets :
    (offsets : List ℕ) (rows : Rows) (x y : ℕ)
    → IsValid rows
    → x < 64
    → y < 64
    → cell (raise_offsets offsets rows) x y ≡ (contains (y * 64 + x) offsets || cell rows x y)
unfolding raise_offsets
cell-raise_offsets [] rows x y v hx hy = refl
cell-raise_offsets (o ∷ os) rows x y v hx hy = elim (Bool-cases (ltb (o / 64) 64)) [
  | inl inside ↦
      let hoy : o / 64 < 64 = ground arith in
      let hox : o % 64 < 64 = omega arith in
      rw inside (
        cell-raise_offsets os _ x y (raise_bit-IsValid rows (o % 64) (o / 64) v.size hox hoy v) hx
          hy
        ∙ ground (arith, cell-raise_bit rows (o % 64) (o / 64) v.size hox hoy x y))
  | inr outside ↦ rw outside (cell-raise_offsets os rows x y v hx hy ∙ ground arith)
]

-- OffsetsToRows makes valid rows of any list, in which cell (x, y) is alive exactly when its offset
-- y * 64 + x is in the list; offsets from 4096 on are dropped.
pub offsets_to_rows_lem :
    (offsets : List ℕ)
    → IsValid (offsets_to_rows offsets)
      × ((x y : ℕ)
          → cell (offsets_to_rows offsets) x y
            ≡ (ltb x 64 && ltb y 64 && contains (y * 64 + x) offsets))
unfolding offsets_to_rows
offsets_to_rows_lem offsets =
    let valid = raise_offsets-IsValid offsets no_rows no_rows-IsValid in
    (
      valid,
      λ x y. ground (
        arith,
        cell-raise_offsets offsets no_rows x y no_rows-IsValid,
        cell-no_rows x y,
        cell_above (raise_offsets offsets no_rows) x y valid,
        cell_below (raise_offsets offsets no_rows) x y valid,
      ),
    )

-- A saved chunk loads as it was: OffsetsToRows undoes RowsToOffsets on valid rows.
pub offsets_to_rows-rows_to_offsets :
    (rows : Rows) → IsValid rows → offsets_to_rows (rows_to_offsets rows) ≡ rows
offsets_to_rows-rows_to_offsets rows v =
    let made = offsets_to_rows_lem (rows_to_offsets rows) in
    cell_ext (offsets_to_rows (rows_to_offsets rows)) rows made.0 v (λ x y hx hy.
      let column : (y * 64 + x) % 64 ≡ x = omega arith in
      let row : (y * 64 + x) / 64 ≡ y = omega arith in
      ground (arith, made.1 x y, rw (column, row) at ((rows_to_offsets_lem rows v).1 (y * 64 + x))))

-- Reading a list of offsets and writing it out again keeps exactly the offsets below 4096, as an
-- ascending list without repetitions.
pub rows_to_offsets-offsets_to_rows :
    (offsets : List ℕ)
    → Ascends 0 4096 (rows_to_offsets (offsets_to_rows offsets))
      × ((o : ℕ)
          → contains o (rows_to_offsets (offsets_to_rows offsets))
            ≡ (ltb o 4096 && contains o offsets))
rows_to_offsets-offsets_to_rows offsets =
    let made = offsets_to_rows_lem offsets in
    let listed = rows_to_offsets_lem (offsets_to_rows offsets) made.0 in
    (
      listed.0,
      λ o.
          let split : o / 64 * 64 + o % 64 ≡ o = omega arith in
          listed.1 o ∙ ground (arith, rw split at (made.1 (o % 64) (o / 64))),
    )

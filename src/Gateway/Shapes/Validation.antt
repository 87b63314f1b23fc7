-- ===== src/Gateway/Shapes/Validation.antt =====
-- What passes ValidateCustomCells, and that its last check never fails.
use distributed_game_of_life.Prelude.{
  ℕ, suc, ◌+◌, ◌*◌, ◌<◌, ◌≤◌, ◌≡◌, ◌≢◌, ◌↔◌, inl, inr, refl, ◌∙◌, sym, ap, arith, Bool, true, false,
  ◌&&◌, ◌||◌, if◌then◌else◌, ltb, leb, ◌==◌, length, List, [], ◌∷◌, ◌++◌, Bool-cases, contains, map,
}
use mathlib.Core.Bool.{not}
use mathlib.Core.List.{append-nil, append_assoc}
use distributed_game_of_life.Prelude.Pigeonhole.{AllBelow, DistinctNumbers, pigeonhole}
use distributed_game_of_life.Prelude.Int.{ℤ, pos, negsuc, pos_part, eq_ℤ}
use distributed_game_of_life.Gateway.Shapes.{
  CellOffset, Validated, valid, out_of_bounds, too_many_cells, in_cells, is_outside, keep_cells,
  validate_custom_cells,
}

-- An offset is one of 0, ..., 99.
abbrev pub on_grid : ℤ → Bool
on_grid (pos n) = leb n 99
on_grid (negsuc n) = false

-- The cell lies outside the grid of 100 by 100.
abbrev pub off_grid : CellOffset → Bool
off_grid c = not (on_grid c.x && on_grid c.y)

abbrev pub same_cell : CellOffset → CellOffset → Bool
same_cell a b = eq_ℤ a.x b.x && eq_ℤ a.y b.y

-- The cell is in the list.
abbrev pub occurs : CellOffset → List CellOffset → Bool
occurs c [] = false
occurs c (d ∷ ds) = same_cell d c || occurs c ds

is_outside-off_grid : (c : CellOffset) → is_outside c ≡ off_grid c
unfolding is_outside
is_outside-off_grid c = ground arith

in_cells-occurs : (c : CellOffset) (cells : List CellOffset) → in_cells c cells ≡ occurs c cells
in_cells-occurs c [] = refl
in_cells-occurs c (d ∷ cells) = ap (◌||◌ (same_cell d c)) (in_cells-occurs c cells)

-- Some cell lies outside the grid of 100 by 100.
abbrev pub any_outside : List CellOffset → Bool
any_outside [] = false
any_outside (c ∷ cells) = off_grid c || any_outside cells

-- No cell occurs twice.
abbrev pub Distinct : List CellOffset → Type 0
Distinct [] = Unit {0}
Distinct (c ∷ cells) = (occurs c cells ≡ false) × Distinct cells

-- The first occurrences of the cells that are not in `seen`.
unfoldable pub fresh : List CellOffset → List CellOffset → List CellOffset
fresh seen [] = []
fresh seen (c ∷ cells) =
    let kept = c ∷ fresh (c ∷ seen) cells in
    let skipped = fresh seen cells in if occurs c seen then skipped else kept

abbrev capped : List CellOffset → Validated
capped out = if ltb 10000 (length out) then too_many_cells else valid out

keep_cells_lem :
    (cells seen out : List CellOffset)
    → keep_cells cells seen out
      ≡ (if any_outside cells then out_of_bounds else capped (out ++ fresh seen cells))
unfolding keep_cells fresh
keep_cells_lem [] seen out = rw (append-nil out) refl
keep_cells_lem (c ∷ cells) seen out = elim (Bool-cases (off_grid c)) [
  | inl outside ↦ rw (is_outside-off_grid c, outside) refl
  | inr inside ↦ elim (Bool-cases (occurs c seen)) [
    | inl again ↦
        rw (is_outside-off_grid c, inside, in_cells-occurs c seen, again)
          (keep_cells_lem cells seen out)
    | inr first ↦
        rw (is_outside-off_grid c, inside, in_cells-occurs c seen, first)
          (keep_cells_lem cells (c ∷ seen) (out ++ c ∷ [])
            ∙ rw (append_assoc out (c ∷ []) (fresh (c ∷ seen) cells)) refl)
  ]
]

same_cell-occurs :
    (a b : CellOffset) (cells : List CellOffset)
    → same_cell a b ≡ true
    → occurs a cells ≡ occurs b cells
same_cell-occurs a b [] h = refl
same_cell-occurs a b (c ∷ cells) h = ground (arith, same_cell-occurs a b cells h)

same_cell_refl : (a : CellOffset) → same_cell a a ≡ true
same_cell_refl a = ground arith

again_counted :
    (same later before : Bool)
    → (same ≡ true → before ≡ true)
    → (later && not before) ≡ ((same || later) && not before)
again_counted same later before h = ground arith

first_counted :
    (same later before : Bool)
    → (same ≡ true → before ≡ false)
    → (same || later && not (same || before)) ≡ ((same || later) && not before)
first_counted same later before h = ground arith

and_false : (b : Bool) → (b && false) ≡ false
and_false b = ground arith

occurs-fresh :
    (d : CellOffset) (seen cells : List CellOffset)
    → occurs d (fresh seen cells) ≡ (occurs d cells && not (occurs d seen))
unfolding fresh
occurs-fresh d seen [] = refl
occurs-fresh d seen (c ∷ cells) = elim (Bool-cases (occurs c seen)) [
  | inl again ↦ rw again (
      occurs-fresh d seen cells
      ∙ again_counted (same_cell c d) (occurs d cells) (occurs d seen)
          (λ same. sym (same_cell-occurs c d seen same) ∙ again))
  | inr first ↦ rw first (
      ap (◌||◌ (same_cell c d)) (occurs-fresh d (c ∷ seen) cells)
      ∙ first_counted (same_cell c d) (occurs d cells) (occurs d seen)
          (λ same. sym (same_cell-occurs c d seen same) ∙ first))
]

fresh-Distinct : (seen cells : List CellOffset) → Distinct (fresh seen cells)
unfolding fresh
fresh-Distinct seen [] = tt
fresh-Distinct seen (c ∷ cells) = elim (Bool-cases (occurs c seen)) [
  | inl again ↦ rw again (fresh-Distinct seen cells)
  | inr first ↦ rw first (
    occurs-fresh c (c ∷ seen) cells ∙ rw (same_cell_refl c) (and_false (occurs c cells)),
    fresh-Distinct (c ∷ seen) cells,
  )
]

none_of_two : (a b : Bool) → (a || b) ≡ false → (a ≡ false) × (b ≡ false)
none_of_two a b h = ground arith

and_true : (b : Bool) → (b && true) ≡ b
and_true b = ground arith

capped-valid : (out : List CellOffset) → length out ≤ 10000 → capped out ≡ valid out
capped-valid out h = ground arith

any_outside-fresh :
    (seen cells : List CellOffset)
    → any_outside cells ≡ false
    → any_outside (fresh seen cells) ≡ false
unfolding fresh
any_outside-fresh seen [] h = refl
any_outside-fresh seen (c ∷ cells) h =
    let parts = none_of_two (off_grid c) (any_outside cells) h in
    elim (Bool-cases (occurs c seen)) [
      | inl again ↦ rw again (any_outside-fresh seen cells parts.1)
      | inr first ↦ rw (first, parts.0) (any_outside-fresh (c ∷ seen) cells parts.1)
    ]

-- The number of a cell in the grid of 100 by 100.
code : CellOffset → ℕ
code c = pos_part c.x * 100 + pos_part c.y

code-lt : (c : CellOffset) → off_grid c ≡ false → code c < 10000
unfolding code
code-lt c h = ground arith

code_inj :
    (c d : CellOffset)
    → off_grid c ≡ false
    → off_grid d ≡ false
    → (code c == code d) ≡ same_cell c d
unfolding code
code_inj c d hc hd = ground arith

contains-codes :
    (c : CellOffset) (cells : List CellOffset)
    → off_grid c ≡ false
    → any_outside cells ≡ false
    → contains (code c) (map code cells) ≡ occurs c cells
contains-codes c [] hc h = refl
contains-codes c (d ∷ cells) hc h =
    let parts = none_of_two (off_grid d) (any_outside cells) h in
    rw (code_inj d c parts.0 hc) (ap (◌||◌ (same_cell d c)) (contains-codes c cells hc parts.1))

codes-AllBelow :
    (cells : List CellOffset) → any_outside cells ≡ false → AllBelow 10000 (map code cells)
codes-AllBelow [] h = tt
codes-AllBelow (c ∷ cells) h =
    let parts = none_of_two (off_grid c) (any_outside cells) h in
    (code-lt c parts.0, codes-AllBelow cells parts.1)

codes-DistinctNumbers :
    (cells : List CellOffset)
    → any_outside cells ≡ false
    → Distinct cells
    → DistinctNumbers (map code cells)
codes-DistinctNumbers [] h d = tt
codes-DistinctNumbers (c ∷ cells) h d =
    let parts = none_of_two (off_grid c) (any_outside cells) h in
    (contains-codes c cells parts.0 parts.1 ∙ d.0, codes-DistinctNumbers cells parts.1 d.1)

length-codes : (cells : List CellOffset) → length (map code cells) ≡ length cells
length-codes [] = refl
length-codes (c ∷ cells) = ap suc (length-codes cells)

-- Distinct cells of the grid are 10000 at most.
length-fresh-le :
    (cells : List CellOffset) → any_outside cells ≡ false → length (fresh [] cells) ≤ 10000
length-fresh-le cells h =
    let inside = any_outside-fresh [] cells h in
    let kept = fresh [] cells in
    omega (
      arith,
      length-codes kept,
      pigeonhole 10000 (map code kept) (codes-AllBelow kept inside)
          (codes-DistinctNumbers kept inside (fresh-Distinct [] cells)),
    )

-- What ValidateCustomCells is to make of a list of cells.
pub record IsCleaned (cells out : List CellOffset) : Type 0 where
  pub same : (d : CellOffset) → occurs d out ≡ occurs d cells
  pub distinct : Distinct out
  pub inside : any_outside out ≡ false
  pub few : length out ≤ 10000

pub validate-inside :
    (cells : List CellOffset)
    → cells ≢ []
    → any_outside cells ≡ false
    → validate_custom_cells cells ≡ valid (fresh [] cells)
unfolding validate_custom_cells
validate-inside [] some_cell h = absurd (some_cell refl)
validate-inside (c ∷ cells) some_cell h =
    keep_cells_lem (c ∷ cells) [] []
    ∙ rw (h) (capped-valid (fresh [] (c ∷ cells)) (length-fresh-le (c ∷ cells) h))

-- A piece with at least one cell, all of them in the grid of 100 by 100, with both offsets from 0 to 99,
-- passes. What comes out has the same cells, none twice, and so at most 10000.
pub validate_custom_cells-valid :
    (cells : List CellOffset)
    → cells ≢ []
    → any_outside cells ≡ false
    → (out : List CellOffset) × (validate_custom_cells cells ≡ valid out) × IsCleaned cells out
validate_custom_cells-valid cells some_cell h = (
  fresh [] cells,
  validate-inside cells some_cell h,
  record {
    same = λ d. occurs-fresh d [] cells ∙ and_true (occurs d cells);
    distinct = fresh-Distinct [] cells;
    inside = any_outside-fresh [] cells h;
    few = length-fresh-le cells h;
  },
)

-- The piece is refused as out of bounds exactly when some cell lies outside the grid: it has an offset below
-- 0 or above 99.
pub validate_custom_cells-out_of_bounds :
    (cells : List CellOffset)
    → (validate_custom_cells cells ≡ out_of_bounds) ↔ (any_outside cells ≡ true)
unfolding validate_custom_cells
validate_custom_cells-out_of_bounds [] = (λ e. cc, λ e. cc)
validate_custom_cells-out_of_bounds (c ∷ cells) =
    rw (keep_cells_lem (c ∷ cells) [] []) (ground arith)

-- The check for too many cells after the loop never fires: the grid has no more than 10000 places.
pub validate_custom_cells-ne-too_many_cells :
    (cells : List CellOffset) → validate_custom_cells cells ≢ too_many_cells
unfolding validate_custom_cells
validate_custom_cells-ne-too_many_cells [] e = cc
validate_custom_cells-ne-too_many_cells (c ∷ cells) e =
    elim (Bool-cases (any_outside (c ∷ cells))) [
      | inl outside ↦ cc (rw outside at (keep_cells_lem (c ∷ cells) [] []))
      | inr inside ↦ cc (validate-inside (c ∷ cells) (λ q. cc) inside)
    ]

-- ===== src/Simulation/Engine/Scratch.antt =====
-- What a live cell adds to the scratch grid: one to the count of each of its eight neighbours.
use distributed_game_of_life.Prelude.{
  ℕ, ◌+◌, ◌*◌, ◌%◌, ◌^◌, ◌≡◌, ◌<◌, ◌≤◌, refl, ◌∙◌, true, false, not, ◌&&◌, ◌||◌,
}
use distributed_game_of_life.Prelude.{
  ltb, ◌==◌, one_if, if◌then◌else◌, length, get_or, set, arith, Bool-cases, inl, inr, ==→≡, ==→≢,
  length-set, get_or-set_self, get_or-set_ne, get_or_above,
}
use distributed_game_of_life.Prelude.Int.{ℤ, pos, negsuc, pos_part, neg_part, ltb_ℤ, eq_ℤ, add64}
use distributed_game_of_life.Simulation.Engine.{Counts, bump_cell, bump_dx, bump_dy, bump}

-- The count at column `x` and row `y` of the padded grid.
abbrev pub at : Counts → ℕ → ℕ → ℕ
at counts x y = get_or counts (y * 66 + x) 0

pub record IsScratch (counts : Counts) : Type 0 where
  pub size : length counts ≡ 66 * 66
  pub bytes : (i : ℕ) → get_or counts i 0 < 2 ^ 8

-- From `before` to `after` the count of each cell (x, y) of the chunk, at (x + 1, y + 1), grows by
-- `g x y` at eight bits.
pub record Adds (before after : Counts) (g : ℕ → ℕ → ℕ) : Type 0 where
  pub scratch : IsScratch after
  pub counted :
      (x y : ℕ)
      → x < 64
      → y < 64
      → at after (x + 1) (y + 1) ≡ (at before (x + 1) (y + 1) + g x y) % 2 ^ 8

pub Adds-trans :
    {a b c : Counts} {g h : ℕ → ℕ → ℕ} → Adds a b g → Adds b c h → Adds a c (λ x y. g x y + h x y)
Adds-trans p q = record {
  scratch = q.scratch;
  counted = λ x y hx hy. omega (arith, p.counted x y hx hy, q.counted x y hx hy);
}

pub Adds-none : (a : Counts) → IsScratch a → Adds a a (λ x y. 0)
Adds-none a s = record {
  scratch = s;
  counted = λ x y hx hy. omega (arith, s.bytes ((y + 1) * 66 + (x + 1)));
}

pub Adds-ext :
    {a b : Counts} {g : ℕ → ℕ → ℕ} (h : ℕ → ℕ → ℕ)
    → Adds a b g
    → ((x y : ℕ) → x < 64 → y < 64 → g x y ≡ h x y)
    → Adds a b h
Adds-ext h p e = record {
  scratch = p.scratch;
  counted = λ x y hx hy. omega (arith, p.counted x y hx hy, e x y hx hy);
}

-- The eight neighbours of cell (x, y), in padded coordinates: `around g x y` sums `g` over them.
abbrev pub around : (ℕ → ℕ → ℕ) → ℕ → ℕ → ℕ
around g x y =
    g x y
    + g (x + 1) y
    + g (x + 2) y
    + g x (y + 1)
    + g (x + 2) (y + 1)
    + g x (y + 2)
    + g (x + 1) (y + 2)
    + g (x + 2) (y + 2)

-- 1 at (px, py) and 0 elsewhere.
abbrev pub point : ℤ → ℤ → ℕ → ℕ → ℕ
point px py x y = one_if (eq_ℤ px (pos x) && eq_ℤ py (pos y))

-- No `int` sum of such a number and a small one wraps.
abbrev pub IsPad : ℤ → Type 0
IsPad z = (pos_part z ≤ 1000) × (neg_part z ≤ 1000)

set-IsScratch :
    (counts : Counts) (i v : ℕ) → IsScratch counts → v < 2 ^ 8 → IsScratch (set counts i v)
set-IsScratch counts i v s small = record {
  size = length-set counts i v ∙ s.size;
  bytes = λ j. elim (Bool-cases (i == j)) [
    | inl same ↦ elim (Bool-cases (ltb i (length counts))) [
      | inl inside ↦ ground (arith, ==→≡ i j same, get_or-set_self counts i v 0)
      | inr outside ↦
          ground (arith, get_or_above (set counts i v) j 0, length-set counts i v, ==→≡ i j same)
    ]
    | inr other ↦ ground (arith, get_or-set_ne counts i j v 0 (==→≢ i j other), s.bytes j)
  ];
}

pad_index_inj : (n m x y : ℕ) → n < 66 → x < 66 → (m * 66 + n == y * 66 + x) ≡ (n == x && m == y)
pad_index_inj n m x y hn hx = ground arith

-- Inside the grid one count grows.
bump_cell_inside :
    (n m : ℕ) (counts : Counts)
    → IsScratch counts
    → n < 66
    → m < 66
    → Adds counts (bump_cell (pos n) (pos m) counts) (λ x y. point (pos n) (pos m) (x + 1) (y + 1))
bump_cell_inside n m counts s hn hm =
    let i = m * 66 + n in
    let v = (get_or counts i 0 + 1) % 2 ^ 8 in
    let written : bump_cell (pos n) (pos m) counts ≡ set counts i v =
      unfold bump_cell in ground arith in
    rw written (record {
      scratch = set-IsScratch counts i v s (omega arith);
      counted = λ x y hx hy.
          let j = (y + 1) * 66 + (x + 1) in
          let same_cell = pad_index_inj n m (x + 1) (y + 1) hn (omega arith) in
          elim (Bool-cases (i == j)) [
            | inl same ↦ ground (
              arith,
              ==→≡ i j same,
              get_or-set_self counts i v 0 (omega (arith, s.size)),
              same_cell,
            )
            | inr other ↦
                ground (arith, get_or-set_ne counts i j v 0 (==→≢ i j other), same_cell, s.bytes j)
          ];
    })

bump_cell-Adds :
    (nx ny : ℤ) (counts : Counts)
    → IsScratch counts
    → (ltb_ℤ ny (pos 0) || not (ltb_ℤ ny (pos 66))) ≡ false
    → Adds counts (bump_cell nx ny counts) (λ x y. point nx ny (x + 1) (y + 1))
bump_cell-Adds nx (negsuc m) counts s low = absurd (ground arith)
bump_cell-Adds (negsuc n) (pos m) counts s low =
    let kept : bump_cell (negsuc n) (pos m) counts ≡ counts = unfold bump_cell in ground arith in
    rw kept (Adds-none counts s)
bump_cell-Adds (pos n) (pos m) counts s low = elim (Bool-cases (ltb n 66)) [
  | inl inside ↦ bump_cell_inside n m counts s (ground arith) (ground arith)
  | inr outside ↦
      let kept : bump_cell (pos n) (pos m) counts ≡ counts = unfold bump_cell in ground arith in
      rw kept (Adds-ext _ (Adds-none counts s) (λ x y hx hy. ground arith))
]

-- What one round of the loop over dx adds.
abbrev step : ℤ → ℤ → ℤ → ℤ → ℕ → ℕ → ℕ
step px ny dy dx x y =
    if eq_ℤ dx (pos 0) && eq_ℤ dy (pos 0) then 0 else point (add64 px dx) ny (x + 1) (y + 1)

bump_dx-Adds :
    (px ny dy dx : ℤ) (counts : Counts)
    → IsScratch counts
    → (ltb_ℤ ny (pos 0) || not (ltb_ℤ ny (pos 66))) ≡ false
    → Adds counts (bump_dx px ny dy dx counts) (step px ny dy dx)
unfolding bump_dx
bump_dx-Adds px ny dy dx counts s low = elim (Bool-cases (eq_ℤ dx (pos 0) && eq_ℤ dy (pos 0))) [
  | inl centre ↦
      rw (bump_dx, centre) (Adds-ext _ (Adds-none counts s) (λ x y hx hy. rw centre refl))
  | inr beside ↦
      rw (bump_dx, beside)
        (Adds-ext _ (bump_cell-Adds (add64 px dx) ny counts s low) (λ x y hx hy. rw beside refl))
]

abbrev line : ℤ → ℤ → ℤ → ℕ → ℕ → ℕ
line px ny dy x y =
    step px ny dy (negsuc 0) x y + step px ny dy (pos 0) x y + step px ny dy (pos 1) x y

point_outside :
    (ny : ℤ) (y : ℕ)
    → y < 64
    → (ltb_ℤ ny (pos 0) || not (ltb_ℤ ny (pos 66))) ≡ true
    → eq_ℤ ny (pos (y + 1)) ≡ false
point_outside ny y hy h = ground arith

bump_dy-Adds :
    (px py dy : ℤ) (counts : Counts)
    → IsScratch counts
    → Adds counts (bump_dy px py dy counts) (line px (add64 py dy) dy)
unfolding bump_dy
bump_dy-Adds px py dy counts s =
    elim (Bool-cases (ltb_ℤ (add64 py dy) (pos 0) || not (ltb_ℤ (add64 py dy) (pos 66)))) [
      | inl outside ↦
          rw (bump_dy, outside)
            (Adds-ext _ (Adds-none counts s) (λ x y hx hy.
              let none_hit = point_outside (add64 py dy) y hy outside in ground (arith, none_hit)))
      | inr inside ↦
          let ny = add64 py dy in
          let left = bump_dx-Adds px ny dy (negsuc 0) counts s inside in
          let middle = bump_dx-Adds px ny dy (pos 0) _ left.scratch inside in
          rw (bump_dy, inside)
            (Adds-trans (Adds-trans left middle)
              (bump_dx-Adds px ny dy (pos 1) _ middle.scratch inside))
    ]

shift_back :
    (z : ℤ) (x : ℕ) → IsPad z → eq_ℤ (add64 z (negsuc 0)) (pos (x + 1)) ≡ eq_ℤ z (pos (x + 2))
unfolding add64
shift_back z x h = ground arith

shift_none : (z : ℤ) (x : ℕ) → IsPad z → eq_ℤ (add64 z (pos 0)) (pos (x + 1)) ≡ eq_ℤ z (pos (x + 1))
unfolding add64
shift_none z x h = ground arith

shift_on : (z : ℤ) (x : ℕ) → IsPad z → eq_ℤ (add64 z (pos 1)) (pos (x + 1)) ≡ eq_ℤ z (pos x)
unfolding add64
shift_on z x h = ground arith

-- A live cell at (px, py) adds one to each cell of the chunk that it is a neighbour of.
pub bump-Adds :
    (px py : ℤ) (counts : Counts)
    → IsPad px
    → IsPad py
    → IsScratch counts
    → Adds counts (bump px py counts) (around (point px py))
unfolding bump
bump-Adds px py counts hx hy s =
    let top = bump_dy-Adds px py (negsuc 0) counts s in
    let middle = bump_dy-Adds px py (pos 0) _ top.scratch in
    let bottom = bump_dy-Adds px py (pos 1) _ middle.scratch in
    Adds-ext (around (point px py)) (Adds-trans (Adds-trans top middle) bottom) (λ x y _ _.
      rw
        (
          shift_back px x hx,
          shift_none px x hx,
          shift_on px x hx,
          shift_back py y hy,
          shift_none py y hy,
          shift_on py y hy,
        )
        (omega arith))

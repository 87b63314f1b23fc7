-- ===== src/Simulation/TickAll/Ticks.antt =====
-- Any number of ticks: the registry refines a grid of cells that Conway's rules advance.
use distributed_game_of_life.Prelude.{
  ℕ, zero, suc, ◌≡◌, ◌<◌, ◌⊎◌, inl, inr, refl, ap, ap₂, ◌∙◌, arith, Bool, one_if, length, List, [],
  ◌∷◌,
}
use distributed_game_of_life.Prelude.Int.{add64-IsInt64}
use distributed_game_of_life.Simulation.Chunk.{ChunkId, Chunk, no_rows}
use distributed_game_of_life.Simulation.Chunk.Cells.{IsValid, no_rows-IsValid, cell}
use distributed_game_of_life.Simulation.Engine.Scratch.{around}
use distributed_game_of_life.Simulation.Engine.Placement.{around_ext_in}
use distributed_game_of_life.Simulation.Engine.Rules.{lives}
use distributed_game_of_life.Simulation.Engine.Shown.{IsId, side, inner, neighbour_at}
use distributed_game_of_life.Simulation.Registry.{Chunks, Config, loaded, hydrated}
use distributed_game_of_life.Simulation.Registry.Invariant.{IsRegistry, rows_in}
use distributed_game_of_life.Simulation.Registry.Lifetime.{IsKept}
use distributed_game_of_life.Simulation.TickAll.{Work, Pool, tick_all}
use distributed_game_of_life.Simulation.TickAll.Spread.{HasIds}
use distributed_game_of_life.Simulation.TickAll.Run.{AreClean}
use distributed_game_of_life.Simulation.TickAll.Orders.{IsSchedule}
use distributed_game_of_life.Simulation.TickAll.Generation.{tick_all-IsGeneration}

-- A grid of cells, by chunk and by place in the chunk, and its next generation by Conway's rules.
abbrev pub Grid : Type 0
Grid = ChunkId → ℕ → ℕ → Bool

abbrev pub generation : Grid → Grid
generation g id x y =
    lives (g id x y)
      (around (λ qx qy. one_if (g (neighbour_at id qx qy) (inner qx) (inner qy))) x y)

abbrev pub generations : ℕ → Grid → Grid
generations zero g = g
generations (suc n) g = generations n (generation g)

-- The cells that the registry stands for.
abbrev pub grid_of : Chunks → Grid
grid_of m id x y = cell (rows_in id m) x y

-- Grids with the same cells, at 64-bit IDs and places in the chunk.
abbrev pub AreSame : Grid → Grid → Type 0
AreSame g h = (id : ChunkId) (x y : ℕ) → IsId id → x < 64 → y < 64 → g id x y ≡ h id x y

inner-lt : (q : ℕ) → q < 66 → inner q < 64
inner-lt q h = ground arith

pub generation-AreSame : (g h : Grid) → AreSame g h → AreSame (generation g) (generation h)
generation-AreSame g h same id x y hid hx hy = ap₂ lives (same id x y hid hx hy) (
    around_ext_in (λ qx qy. one_if (g (neighbour_at id qx qy) (inner qx) (inner qy)))
      (λ qx qy. one_if (h (neighbour_at id qx qy) (inner qx) (inner qy))) x y hx hy
      (λ qx qy lx ly. ap one_if (
        same (neighbour_at id qx qy) (inner qx) (inner qy)
          (add64-IsInt64 id.x (side qx), add64-IsInt64 id.y (side qy)) (inner-lt qx lx)
          (inner-lt qy ly))))

generations-AreSame :
    (n : ℕ) (g h : Grid) → AreSame g h → AreSame (generations n g) (generations n h)
generations-AreSame zero g h same = same
generations-AreSame (suc n) g h same =
    generations-AreSame n (generation g) (generation h) (generation-AreSame g h same)

-- One tick: in which order the pool takes the jobs, and which worker takes which.
pub record Round : Type 0 where
  pub schedule : List (ChunkId × Work) → List (ChunkId × Work)
  pub worker_of : ChunkId → ℕ
  pub fair : IsSchedule schedule

module _ (config : Config) where
  open config use {Outside, load, persist, on_tick}

  -- Every chunk in storage is blank.
  abbrev pub StoresBlank : Outside → Type 0
  StoresBlank o = (k : ChunkId) → (hydrated k (load o k)).rows ≡ no_rows

  -- A broadcast does not change what is stored. After saving a valid chunk, loading finds that chunk, or what it
  -- found before.
  pub record IsStore : Type 0 where
    pub load-on_tick :
        (o : Outside) (id k : ChunkId) (cells : List ℕ) → load (on_tick o id cells) k ≡ load o k
    pub load-persist :
        (o : Outside) (c : Chunk) (k : ChunkId)
        → IsValid c.rows
        → (load (persist o c) k ≡ loaded c) ⊎ (load (persist o c) k ≡ load o k)

  -- The ticker of main.go, for some ticks.
  unfoldable pub ticks : List Round → Pool config → Pool config
  unfolding tick_all
  ticks [] p = p
  ticks (r ∷ rounds) p = ticks rounds (tick_all config r.schedule r.worker_of p)

  pub StoresBlank-IsKept : IsStore → IsKept config StoresBlank
  unfolding hydrated
  StoresBlank-IsKept store = (
    λ o id cells blank k. rw (store.load-on_tick o id k cells) (blank k),
    λ o c empty blank k. elim (store.load-persist o c k (rw empty no_rows-IsValid)) [
      | inl saved ↦ rw saved empty
      | inr kept ↦ rw kept (blank k)
    ],
  )

  ticks-AreSame :
      (rounds : List Round) (p : Pool config)
      → IsStore
      → StoresBlank p.0.0
      → IsRegistry p.0.1
      → HasIds p.0.1
      → AreClean p.1
      → let after = ticks rounds p in
        AreSame (grid_of after.0.1) (generations (length rounds) (grid_of p.0.1))
        × StoresBlank after.0.0
        × IsRegistry after.0.1
        × HasIds after.0.1
        × AreClean after.1
  unfolding ticks
  ticks-AreSame [] p store blank r ids clean = (λ id x y hid hx hy. refl, blank, r, ids, clean)
  ticks-AreSame (round ∷ rounds) p store blank r ids clean =
      let next =
        tick_all-IsGeneration config StoresBlank (StoresBlank-IsKept store) round.schedule
          round.worker_of p.0.0 p.0.1 p.1 round.fair (λ k absent. blank k) r ids clean blank in
      let p1 = tick_all config round.schedule round.worker_of p in
      let rest = ticks-AreSame rounds p1 store next.outside next.registry next.ids next.clean in
      let same =
        generations-AreSame (length rounds) (grid_of p1.0.1) (generation (grid_of p.0.1))
          next.cells in
      (
        λ id x y hid hx hy. rest.0 id x y hid hx hy ∙ same id x y hid hx hy,
        rest.1,
        rest.2,
        rest.3,
        rest.4,
      )

  -- From a well-formed registry of chunks with 64-bit IDs, over a storage that answers with what was
  -- saved and holds blank chunks only, any number of ticks, with any scheduling of the jobs, advances
  -- the cells of the chunks with 64-bit IDs by as many generations of Conway's rules. The storage keeps
  -- blank chunks only, the registry stays well formed and the buffers, zeroed at first, zeroed.
  pub ticks-refines :
      (rounds : List Round) (p : Pool config) (id : ChunkId) (x y : ℕ)
      → IsStore
      → StoresBlank p.0.0
      → IsRegistry p.0.1
      → HasIds p.0.1
      → AreClean p.1
      → IsId id
      → x < 64
      → y < 64
      → let after = ticks rounds p in
        (cell (rows_in id after.0.1) x y ≡ generations (length rounds) (grid_of p.0.1) id x y)
        × StoresBlank after.0.0
        × IsRegistry after.0.1
        × HasIds after.0.1
        × AreClean after.1
  ticks-refines rounds p id x y store blank r ids clean hid hx hy =
      let done = ticks-AreSame rounds p store blank r ids clean in
      (done.0 id x y hid hx hy, done.1, done.2, done.3, done.4)

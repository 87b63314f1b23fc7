-- ===== src/Gateway/Router/Painting.antt =====
-- What a command does to the cells of the world, against what its client is told.
use distributed_game_of_life.Prelude.{
  ℕ, ◌≡◌, ◌<◌, refl, ◌∙◌, arith, Bool, true, false, ◌||◌, List, [], ◌∷◌,
}
use distributed_game_of_life.Prelude.Int.{ℤ, add64, IsInt64, add64-IsInt64}
use distributed_game_of_life.Simulation.Chunk.{ChunkId}
use distributed_game_of_life.Simulation.Chunk.Cells.{cell, in_chunk}
use distributed_game_of_life.Simulation.ChunkMap.{find}
use distributed_game_of_life.Simulation.Registry.{Config, get_or_create, spawn_cell}
use distributed_game_of_life.Simulation.Registry.Invariant.{IsRegistry, rows_in}
use distributed_game_of_life.Simulation.Registry.Spawns.{spawn_cell_lem}
use distributed_game_of_life.Simulation.TickAll.Spread.{spawn_in-HasIds, HasIds}
use distributed_game_of_life.Simulation.TickAll.Growth.{start-IsGrown, get_or_create-IsGrown}
use distributed_game_of_life.Simulation.TickAll.Ticks.{StoresBlank}
use distributed_game_of_life.Ratelimit.{Redis}
use distributed_game_of_life.Gateway.Coordinates.{world_to_chunk_local}
use distributed_game_of_life.Gateway.Shapes.{CellOffset}
use distributed_game_of_life.Gateway.Router.{Server, spawn_world_cell, spawn_piece}
use distributed_game_of_life.Gateway.Router.Positions.{
  lies_at, painted, chunk_at, chunk_at-IsId, chunk_at-lies_at, local-lt,
}

and_true : (x y : ℕ) → x < 64 → y < 64 → in_chunk x y ≡ true
and_true x y hx hy = ground arith

or_none : (a b : Bool) → (a || b) ≡ (a || false || b)
or_none a b = ground arith

one_more : (a b c : Bool) → (b || (a || false || c)) ≡ (a || b || c)
one_more a b c = ground arith

-- The positions of the cells of a piece.
abbrev pub piece_at : ℤ → ℤ → List CellOffset → List (ℤ × ℤ)
piece_at x y [] = []
piece_at x y (c ∷ cells) = (add64 x c.x, add64 y c.y) ∷ piece_at x y cells

module _ (redis : Redis) (config : Config) where
  -- The cells at the positions are alive, and nothing else has changed in the world.
  pub record IsPainted (ps : List (ℤ × ℤ)) (w w' : Server redis config) : Type 0 where
    pub registry : IsRegistry w'.chunks
    pub ids : HasIds w'.chunks
    pub outside : w'.outside ≡ w.outside
    pub sent : w'.sent ≡ w.sent
    pub cells :
        (id : ChunkId) (x y : ℕ)
        → x < 64
        → y < 64
        → cell (rows_in id w'.chunks) x y ≡ (painted ps id x y || cell (rows_in id w.chunks) x y)

  pub spawn_world_cell-IsPainted :
      (wx wy : ℤ) (w : Server redis config)
      → IsInt64 wx
      → IsInt64 wy
      → StoresBlank config w.outside
      → IsRegistry w.chunks
      → HasIds w.chunks
      → IsPainted ((wx, wy) ∷ []) w (spawn_world_cell redis config wx wy w)
  unfolding spawn_world_cell spawn_cell
  spawn_world_cell-IsPainted wx wy w hx hy blank r ids =
      let at = chunk_at (wx, wy) in
      let lx = (world_to_chunk_local wx).1 in
      let ly = (world_to_chunk_local wy).1 in
      let hid = chunk_at-IsId (wx, wy) hx hy in
      let inside : in_chunk lx ly ≡ true = and_true lx ly (local-lt wx hx) (local-lt wy hy) in
      let grown =
        get_or_create-IsGrown config w.outside w.chunks w.chunks at (λ k absent. blank k) hid
          (start-IsGrown w.chunks r ids) in
      record {
        registry = (spawn_cell_lem config w.outside at at lx ly 0 0 w.chunks inside r).0;
        ids =
            spawn_in-HasIds at lx ly (find at (get_or_create config w.outside at w.chunks))
              (get_or_create config w.outside at w.chunks) hid grown.ids;
        outside = refl;
        sent = refl;
        cells = λ id x y lessx lessy.
            (spawn_cell_lem config w.outside at id lx ly x y w.chunks inside r).1
            ∙ rw (chunk_at-lies_at (wx, wy) id x y hx hy lessx lessy, grown.same id)
                (or_none (lies_at (wx, wy) id x y) (cell (rows_in id w.chunks) x y));
      }

  IsPainted-then :
      (p : ℤ × ℤ) (ps : List (ℤ × ℤ)) (w w1 w2 : Server redis config)
      → IsPainted (p ∷ []) w w1
      → IsPainted ps w1 w2
      → IsPainted (p ∷ ps) w w2
  IsPainted-then p ps w w1 w2 first rest = record {
    registry = rest.registry;
    ids = rest.ids;
    outside = rest.outside ∙ first.outside;
    sent = rest.sent ∙ first.sent;
    cells = λ id x y hx hy.
        rest.cells id x y hx hy
        ∙ rw (first.cells id x y hx hy)
            (one_more (lies_at p id x y) (painted ps id x y) (cell (rows_in id w.chunks) x y));
  }

  pub spawn_piece-IsPainted :
      (wx wy : ℤ) (cells : List CellOffset) (w : Server redis config)
      → StoresBlank config w.outside
      → IsRegistry w.chunks
      → HasIds w.chunks
      → IsPainted (piece_at wx wy cells) w (spawn_piece redis config wx wy cells w)
  unfolding spawn_piece
  spawn_piece-IsPainted wx wy [] w blank r ids = record {
    registry = r;
    ids = ids;
    outside = refl;
    sent = refl;
    cells = λ id x y hx hy. refl;
  }
  spawn_piece-IsPainted wx wy (c ∷ cells) w blank r ids =
      let w1 = spawn_world_cell redis config (add64 wx c.x) (add64 wy c.y) w in
      let first =
        spawn_world_cell-IsPainted (add64 wx c.x) (add64 wy c.y) w (add64-IsInt64 wx c.x)
          (add64-IsInt64 wy c.y) blank r ids in
      IsPainted-then (add64 wx c.x, add64 wy c.y) (piece_at wx wy cells) w w1
        (spawn_piece redis config wx wy cells w1) first
        (spawn_piece-IsPainted wx wy cells w1 (rw (first.outside) blank) first.registry first.ids)

-- ===== src/Gateway/Router/Outcome.antt =====
-- What a command does to the cells of the world, against what its client is told.
use distributed_game_of_life.Prelude.{
  ℕ, ◌==◌, ◌≡◌, ◌<◌, refl, ◌∙◌, Bool, true, false, ◌&&◌, ◌||◌, ltb, length, List, [], ◌∷◌, Option,
  none, some, Bool-cases, inl, inr,
}
use distributed_game_of_life.Prelude.Int.{ℤ, IsInt64}
use Prim.Native.String.{String}
use distributed_game_of_life.Simulation.Chunk.{ChunkId}
use distributed_game_of_life.Simulation.Chunk.Cells.{cell}
use distributed_game_of_life.Simulation.Registry.{Config}
use distributed_game_of_life.Simulation.Registry.Invariant.{IsRegistry, rows_in}
use distributed_game_of_life.Simulation.TickAll.Spread.{HasIds}
use distributed_game_of_life.Simulation.TickAll.Ticks.{StoresBlank}
use distributed_game_of_life.Ratelimit.{Redis, drain_n}
use distributed_game_of_life.Gateway.Shapes.{
  CellOffset, Validated, valid, empty_piece, out_of_bounds, too_many_cells, get_shape,
  validate_custom_cells,
}
use distributed_game_of_life.Gateway.Router.{
  Command, spawn_at, place_shape, place_custom, subscribe_to, unsubscribe_from, ping, unsupported,
  Reply, spawn_ack, place_shape_ack, place_custom_ack, internal_error, rate_limited, unknown_shape,
  invalid_payload, unknown_command, invalid_piece, Moment, Server, send, tokens_wanted,
  spawn_world_cell, spawn_piece, check_rate_limit, charge_n, if_charged, run_spawn, run_shape,
  run_drained, run_custom, run_subscribe, run_unsubscribe, route,
}
use distributed_game_of_life.Gateway.Router.Positions.{painted}
use distributed_game_of_life.Gateway.Router.Painting.{
  IsPainted, piece_at, spawn_world_cell-IsPainted, spawn_piece-IsPainted,
}
use distributed_game_of_life.Gateway.Router.Quiet.{
  is_ack, acked, acked-append, AllIds, IsQuiet, IsQuiet-trans, IsQuiet-self, send-IsQuiet,
  recharged, check_rate_limit-IsQuiet, charge_n-IsQuiet, run_subscribe-IsQuiet,
  run_unsubscribe-IsQuiet,
}

-- The positions of the cells that a command asks for.
abbrev piece_of : ℤ → ℤ → Option (List CellOffset) → List (ℤ × ℤ)
piece_of x y none = []
piece_of x y (some cells) = piece_at x y cells

abbrev valid_piece : ℤ → ℤ → Validated → List (ℤ × ℤ)
valid_piece x y (valid cells) = piece_at x y cells
valid_piece x y _ = []

abbrev pub positions : Command → List (ℤ × ℤ)
positions (spawn_at (some p)) = p ∷ []
positions (place_shape (some ((x, y), shape))) = piece_of x y (get_shape shape)
positions (place_custom (some ((x, y), cells))) = valid_piece x y (validate_custom_cells cells)
positions _ = []

-- The numbers in the command are 64-bit integers, as the decoder makes them.
abbrev pub IsDecoded : Command → Type 0
IsDecoded (spawn_at (some p)) = IsInt64 p.0 × IsInt64 p.1
IsDecoded (subscribe_to (some ids)) = AllIds ids
IsDecoded _ = Unit {0}

module _ (redis : Redis) (config : Config) where
  -- The positions have come alive if an acknowledgement was sent, and nothing else has changed.
  pub record IsOutcome (ps : List (ℤ × ℤ)) (w w' : Server redis config) : Type 0 where
    pub registry : IsRegistry w'.chunks
    pub ids : HasIds w'.chunks
    pub outside : w'.outside ≡ w.outside
    pub cells :
        (id : ChunkId) (x y : ℕ)
        → x < 64
        → y < 64
        → cell (rows_in id w'.chunks) x y
          ≡ (acked w'.sent && painted ps id x y || cell (rows_in id w.chunks) x y)

  quiet-IsOutcome :
      (ps : List (ℤ × ℤ)) (w w' : Server redis config)
      → acked w.sent ≡ false
      → IsQuiet redis config w w'
      → IsOutcome ps w w'
  quiet-IsOutcome ps w w' silent q = record {
    registry = q.registry;
    ids = q.ids;
    outside = q.outside;
    cells = λ id x y hx hy. rw (q.acks, silent, q.rows id) refl;
  }

  acked-IsOutcome :
      (reply : Reply) (ps : List (ℤ × ℤ)) (w w1 w2 : Server redis config)
      → is_ack reply ≡ true
      → IsQuiet redis config w w1
      → IsPainted redis config ps w1 w2
      → IsOutcome ps w (send reply w2)
  acked-IsOutcome reply ps w w1 w2 ack q p = record {
    registry = p.registry;
    ids = p.ids;
    outside = p.outside ∙ q.outside;
    cells =
        λ id x y hx hy. rw (acked-append w2.sent reply, ack, p.cells id x y hx hy, q.rows id) refl;
  }

  charged-IsOutcome :
      (run : Server redis config → Server redis config) (ps : List (ℤ × ℤ))
      (w : Server redis config) (charged : Bool × Server redis config)
      → acked w.sent ≡ false
      → IsQuiet redis config w charged.1
      → IsOutcome ps w (run charged.1)
      → IsOutcome ps w (if_charged redis config run charged)
  charged-IsOutcome run ps w (false, w1) silent q out = quiet-IsOutcome ps w w1 silent q
  charged-IsOutcome run ps w (true, w1) silent q out = out

  piece-IsOutcome :
      (reply : Reply) (x y : ℤ) (cells : List CellOffset) (w w1 : Server redis config)
      → is_ack reply ≡ true
      → StoresBlank config w.outside
      → IsQuiet redis config w w1
      → IsOutcome (piece_at x y cells) w (send reply (spawn_piece redis config x y cells w1))
  piece-IsOutcome reply x y cells w w1 ack blank q =
      acked-IsOutcome reply (piece_at x y cells) w w1 (spawn_piece redis config x y cells w1) ack q
        (spawn_piece-IsPainted redis config x y cells w1 (rw (q.outside) blank) q.registry q.ids)

  run_drained-IsOutcome :
      (x y : ℤ) (cells : List CellOffset) (answer : Option ℕ) (w w1 : Server redis config)
      → acked w.sent ≡ false
      → StoresBlank config w.outside
      → IsQuiet redis config w w1
      → IsOutcome (piece_at x y cells) w (run_drained redis config x y cells answer w1)
  unfolding run_drained
  run_drained-IsOutcome x y cells none w w1 silent blank q =
      quiet-IsOutcome (piece_at x y cells) w (send internal_error w1) silent (
        IsQuiet-trans redis config w w1 (send internal_error w1) q
          (send-IsQuiet redis config internal_error w1 refl q.registry q.ids))
  run_drained-IsOutcome x y cells (some n) w w1 silent blank q =
      elim (Bool-cases (n == 0 && ltb 0 (tokens_wanted cells))) [
        | inl refused ↦ rw refused (
            quiet-IsOutcome (piece_at x y cells) w (send rate_limited w1) silent (
              IsQuiet-trans redis config w w1 (send rate_limited w1) q
                (send-IsQuiet redis config rate_limited w1 refl q.registry q.ids)))
        | inr placed ↦ rw placed (piece-IsOutcome place_custom_ack x y cells w w1 refl blank q)
      ]

  refused-IsOutcome :
      (reply : Reply) (ps : List (ℤ × ℤ)) (w : Server redis config)
      → is_ack reply ≡ false
      → acked w.sent ≡ false
      → IsRegistry w.chunks
      → HasIds w.chunks
      → IsOutcome ps w (send reply w)
  refused-IsOutcome reply ps w plain silent r ids =
      quiet-IsOutcome ps w (send reply w) silent (send-IsQuiet redis config reply w plain r ids)

  module _ (w : Server redis config) (silent : acked w.sent ≡ false)
      (blank : StoresBlank config w.outside) (r : IsRegistry w.chunks) (ids : HasIds w.chunks) where
    run_spawn-IsOutcome :
        (p : ℤ × ℤ) (t : Moment) (id : String)
        → IsInt64 p.0
        → IsInt64 p.1
        → IsOutcome (p ∷ []) w (
            if_charged redis config
              (run_spawn redis config (some p))
              (check_rate_limit redis config t id w))
    unfolding run_spawn
    run_spawn-IsOutcome (x, y) t id hx hy =
        let w1 = (check_rate_limit redis config t id w).1 in
        let q = check_rate_limit-IsQuiet redis config t id w r ids in
        charged-IsOutcome (run_spawn redis config (some (x, y))) ((x, y) ∷ []) w
          (check_rate_limit redis config t id w) silent q
          (acked-IsOutcome spawn_ack ((x, y) ∷ []) w w1 (spawn_world_cell redis config x y w1) refl
            q
            (spawn_world_cell-IsPainted redis config x y w1 hx hy (rw (q.outside) blank) q.registry
              q.ids))

    run_shape-IsOutcome :
        (moments : ℕ → Moment) (id : String) (x y : ℤ) (found : Option (List CellOffset))
        → IsOutcome (piece_of x y found) w (run_shape redis config moments id x y found w)
    unfolding run_shape
    run_shape-IsOutcome moments id x y none = refused-IsOutcome unknown_shape [] w refl silent r ids
    run_shape-IsOutcome moments id x y (some cells) =
        let q = charge_n-IsQuiet redis config moments id (length cells) 0 w r ids in
        charged-IsOutcome _ (piece_at x y cells) w
          (charge_n redis config moments id (length cells) 0 w) silent q
          (piece-IsOutcome place_shape_ack x y cells w _ refl blank q)

    run_custom-IsOutcome :
        (t : Moment) (id : String) (x y : ℤ) (v : Validated)
        → IsOutcome (valid_piece x y v) w (run_custom redis config t id x y v w)
    unfolding run_custom
    run_custom-IsOutcome t id x y (valid cells) =
        let drained = drain_n redis t.connected w.buckets id t.now (tokens_wanted cells) in
        let paid = record w { buckets = drained.1 } in
        run_drained-IsOutcome x y cells drained.0 w paid silent blank
          (recharged redis config drained.1 w paid (IsQuiet-self redis config paid r ids))
    run_custom-IsOutcome t id x y empty_piece =
        refused-IsOutcome (invalid_piece empty_piece) [] w refl silent r ids
    run_custom-IsOutcome t id x y out_of_bounds =
        refused-IsOutcome (invalid_piece out_of_bounds) [] w refl silent r ids
    run_custom-IsOutcome t id x y too_many_cells =
        refused-IsOutcome (invalid_piece too_many_cells) [] w refl silent r ids

    -- Whatever the command, its outcome is that of the acknowledgement.
    pub route-IsOutcome :
        (moments : ℕ → Moment) (id : String) (client : ℕ) (command : Command)
        → IsDecoded command
        → IsOutcome (positions command) w (route redis config moments id client command w)
    unfolding route run_spawn
    route-IsOutcome moments id client (spawn_at none) decoded =
        let w1 = (check_rate_limit redis config (moments 0) id w).1 in
        let q = check_rate_limit-IsQuiet redis config (moments 0) id w r ids in
        charged-IsOutcome (run_spawn redis config none) [] w
          (check_rate_limit redis config (moments 0) id w) silent q
          (quiet-IsOutcome [] w (send invalid_payload w1) silent (
            IsQuiet-trans redis config w w1 (send invalid_payload w1) q
              (send-IsQuiet redis config invalid_payload w1 refl q.registry q.ids)))
    route-IsOutcome moments id client (spawn_at (some p)) decoded =
        run_spawn-IsOutcome p (moments 0) id decoded.0 decoded.1
    route-IsOutcome moments id client (place_shape none) decoded =
        refused-IsOutcome invalid_payload [] w refl silent r ids
    route-IsOutcome moments id client (place_shape (some ((x, y), shape))) decoded =
        run_shape-IsOutcome moments id x y (get_shape shape)
    route-IsOutcome moments id client (place_custom none) decoded =
        refused-IsOutcome invalid_payload [] w refl silent r ids
    route-IsOutcome moments id client (place_custom (some ((x, y), cells))) decoded =
        run_custom-IsOutcome (moments 0) id x y (validate_custom_cells cells)
    route-IsOutcome moments id client (subscribe_to none) decoded =
        refused-IsOutcome invalid_payload [] w refl silent r ids
    route-IsOutcome moments id client (subscribe_to (some chunks)) decoded =
        quiet-IsOutcome [] w (run_subscribe redis config client chunks w) silent
          (run_subscribe-IsQuiet redis config client chunks w decoded blank r ids)
    route-IsOutcome moments id client (unsubscribe_from none) decoded =
        refused-IsOutcome invalid_payload [] w refl silent r ids
    route-IsOutcome moments id client (unsubscribe_from (some chunks)) decoded =
        quiet-IsOutcome [] w (run_unsubscribe redis config client chunks w) silent
          (run_unsubscribe-IsQuiet redis config client chunks w r ids)
    route-IsOutcome moments id client ping decoded =
        quiet-IsOutcome [] w w silent (IsQuiet-self redis config w r ids)
    route-IsOutcome moments id client unsupported decoded =
        refused-IsOutcome unknown_command [] w refl silent r ids

  -- What a client is told is what happens to the world. After a command, a cell is alive if it was
  -- before, or if the command was acknowledged and the cell lies at one of the absolute positions that
  -- the command asks for: its position for SPAWN, its shape or its valid cells, moved to its position,
  -- for the others. No other cell changes, nor what is behind the registry, which stays well formed.
  -- The numbers in the command must be 64-bit integers, no acknowledgement may have been sent before,
  -- the storage must hold blank chunks only, and the registry must be well formed, of chunks with
  -- 64-bit IDs.
  pub route_lem :
      (moments : ℕ → Moment) (id : String) (client : ℕ) (command : Command)
      (w : Server redis config) (j : ChunkId) (x y : ℕ)
      → IsDecoded command
      → acked w.sent ≡ false
      → StoresBlank config w.outside
      → IsRegistry w.chunks
      → HasIds w.chunks
      → x < 64
      → y < 64
      → let after = route redis config moments id client command w in
        (cell (rows_in j after.chunks) x y ≡ (
          acked after.sent && painted (positions command) j x y || cell (rows_in j w.chunks) x y))
        × IsRegistry after.chunks
        × HasIds after.chunks
        × (after.outside ≡ w.outside)
  route_lem moments id client command w j x y decoded silent blank r ids hx hy =
      let out = route-IsOutcome w silent blank r ids moments id client command decoded in
      (out.cells j x y hx hy, out.registry, out.ids, out.outside)

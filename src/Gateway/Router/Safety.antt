-- ===== src/Gateway/Router/Safety.antt =====
-- Route keeps the registry well formed.
use distributed_game_of_life.Prelude.{
  ℕ, zero, suc, ◌+◌, Bool, true, false, ◌&&◌, ltb, ◌==◌, List, [], ◌∷◌, Option, none, some,
  Bool-cases, inl, inr, length,
}
use distributed_game_of_life.Prelude.Int.{ℤ, add64}
use Prim.Native.String.{String}
use distributed_game_of_life.Simulation.Chunk.{ChunkId}
use distributed_game_of_life.Simulation.Registry.{Config, peek_chunk}
use distributed_game_of_life.Simulation.Registry.Invariant.{IsRegistry, get_or_create_lem}
use distributed_game_of_life.Simulation.Registry.Spawns.{spawn_cell-IsRegistry}
use distributed_game_of_life.Ratelimit.{Redis, allow_mutation, drain_n}
use distributed_game_of_life.Gateway.Coordinates.{world_to_chunk_local}
use distributed_game_of_life.Gateway.Shapes.{
  CellOffset, Validated, valid, empty_piece, out_of_bounds, too_many_cells, get_shape,
  validate_custom_cells,
}
use distributed_game_of_life.Gateway.Router.{
  Command, spawn_at, place_shape, place_custom, subscribe_to, unsubscribe_from, ping, unsupported,
  Moment, Server, tokens_wanted, spawn_world_cell, spawn_piece, judge, check_rate_limit, charge_n,
  if_charged, run_spawn, run_shape, run_drained, run_custom, show_chunk, run_subscribe,
  run_unsubscribe, route,
}

module _ (redis : Redis) (config : Config) where
  abbrev IsSound : Server redis config → Type 0
  IsSound w = IsRegistry w.chunks

  spawn_world_cell-IsSound :
      (x y : ℤ) (w : Server redis config)
      → IsSound w
      → IsSound (spawn_world_cell redis config x y w)
  unfolding spawn_world_cell
  spawn_world_cell-IsSound x y w r =
      spawn_cell-IsRegistry config w.outside _ (world_to_chunk_local x).1 (world_to_chunk_local y).1
        w.chunks r

  spawn_piece-IsSound :
      (x y : ℤ) (cells : List CellOffset) (w : Server redis config)
      → IsSound w
      → IsSound (spawn_piece redis config x y cells w)
  unfolding spawn_piece
  spawn_piece-IsSound x y [] w r = r
  spawn_piece-IsSound x y (c ∷ cells) w r =
      spawn_piece-IsSound x y cells (spawn_world_cell redis config (add64 x c.x) (add64 y c.y) w)
        (spawn_world_cell-IsSound (add64 x c.x) (add64 y c.y) w r)

  judge-IsSound :
      (a : Option Bool) (w : Server redis config) → IsSound w → IsSound (judge redis config a w).1
  unfolding judge
  judge-IsSound none w r = r
  judge-IsSound (some false) w r = r
  judge-IsSound (some true) w r = r

  check_rate_limit-IsSound :
      (t : Moment) (id : String) (w : Server redis config)
      → IsSound w
      → IsSound (check_rate_limit redis config t id w).1
  unfolding check_rate_limit
  check_rate_limit-IsSound t id w r =
      let asked = allow_mutation redis t.connected w.buckets id t.now in
      judge-IsSound asked.0 (record w { buckets = asked.1 }) r

  charge_n-IsSound :
      (moments : ℕ → Moment) (id : String) (n i : ℕ) (w : Server redis config)
      → IsSound w
      → IsSound (charge_n redis config moments id n i w).1
  unfolding charge_n
  charge_n-IsSound moments id zero i w r = r
  charge_n-IsSound moments id (suc n) i w r =
      let checked = check_rate_limit-IsSound (moments i) id w r in
      elim (Bool-cases (check_rate_limit redis config (moments i) id w).0) [
        | inl ok ↦ rw ok (charge_n-IsSound moments id n (i + 1) _ checked)
        | inr refused ↦ rw refused checked
      ]

  if_charged-IsSound :
      (run : Server redis config → Server redis config) (charged : Bool × Server redis config)
      → ((w : Server redis config) → IsSound w → IsSound (run w))
      → IsSound charged.1
      → IsSound (if_charged redis config run charged)
  if_charged-IsSound run (false, w) keeps r = r
  if_charged-IsSound run (true, w) keeps r = keeps w r

  run_spawn-IsSound :
      (position : Option (ℤ × ℤ)) (w : Server redis config)
      → IsSound w
      → IsSound (run_spawn redis config position w)
  unfolding run_spawn
  run_spawn-IsSound none w r = r
  run_spawn-IsSound (some (x, y)) w r = spawn_world_cell-IsSound x y w r

  run_shape-IsSound :
      (moments : ℕ → Moment) (id : String) (x y : ℤ) (found : Option (List CellOffset))
      (w : Server redis config)
      → IsSound w
      → IsSound (run_shape redis config moments id x y found w)
  unfolding run_shape
  run_shape-IsSound moments id x y none w r = r
  run_shape-IsSound moments id x y (some cells) w r =
      if_charged-IsSound _ (charge_n redis config moments id (length cells) 0 w)
        (λ paid ok. spawn_piece-IsSound x y cells paid ok)
        (charge_n-IsSound moments id (length cells) 0 w r)

  run_drained-IsSound :
      (x y : ℤ) (cells : List CellOffset) (answer : Option ℕ) (w : Server redis config)
      → IsSound w
      → IsSound (run_drained redis config x y cells answer w)
  unfolding run_drained
  run_drained-IsSound x y cells none w r = r
  run_drained-IsSound x y cells (some n) w r =
      elim (Bool-cases (n == 0 && ltb 0 (tokens_wanted cells))) [
        | inl refused ↦ rw refused r
        | inr placed ↦ rw placed (spawn_piece-IsSound x y cells w r)
      ]

  run_custom-IsSound :
      (t : Moment) (id : String) (x y : ℤ) (v : Validated) (w : Server redis config)
      → IsSound w
      → IsSound (run_custom redis config t id x y v w)
  unfolding run_custom
  run_custom-IsSound t id x y (valid cells) w r =
      let drained = drain_n redis t.connected w.buckets id t.now (tokens_wanted cells) in
      run_drained-IsSound x y cells drained.0 (record w { buckets = drained.1 }) r
  run_custom-IsSound t id x y empty_piece w r = r
  run_custom-IsSound t id x y out_of_bounds w r = r
  run_custom-IsSound t id x y too_many_cells w r = r

  show_chunk-IsSound :
      (id : ChunkId) (cells : List ℕ) (w : Server redis config)
      → IsSound w
      → IsSound (show_chunk redis config id cells w)
  unfolding show_chunk
  show_chunk-IsSound id [] w r = r
  show_chunk-IsSound id (c ∷ cells) w r = (get_or_create_lem config w.outside id id w.chunks r).0

  run_subscribe-IsSound :
      (client : ℕ) (ids : List ChunkId) (w : Server redis config)
      → IsSound w
      → IsSound (run_subscribe redis config client ids w)
  unfolding run_subscribe
  run_subscribe-IsSound client [] w r = r
  run_subscribe-IsSound client (id ∷ ids) w r =
      run_subscribe-IsSound client ids _
        (show_chunk-IsSound id (peek_chunk config w.outside id w.chunks) _ r)

  run_unsubscribe-IsSound :
      (client : ℕ) (ids : List ChunkId) (w : Server redis config)
      → IsSound w
      → IsSound (run_unsubscribe redis config client ids w)
  unfolding run_unsubscribe
  run_unsubscribe-IsSound client [] w r = r
  run_unsubscribe-IsSound client (id ∷ ids) w r = run_unsubscribe-IsSound client ids _ r

  -- Whatever a client sends, and whatever the limiter answers, Route keeps the registry well formed: one
  -- entry for each chunk, under its ID, with valid rows and not due to hibernate.
  pub route-IsRegistry :
      (moments : ℕ → Moment) (id : String) (client : ℕ) (command : Command)
      (w : Server redis config)
      → IsRegistry w.chunks
      → IsRegistry (route redis config moments id client command w).chunks
  unfolding route
  route-IsRegistry moments id client (spawn_at position) w r =
      if_charged-IsSound _ (check_rate_limit redis config (moments 0) id w)
        (λ paid ok. run_spawn-IsSound position paid ok)
        (check_rate_limit-IsSound (moments 0) id w r)
  route-IsRegistry moments id client (place_shape none) w r = r
  route-IsRegistry moments id client (place_shape (some ((x, y), shape))) w r =
      run_shape-IsSound moments id x y (get_shape shape) w r
  route-IsRegistry moments id client (place_custom none) w r = r
  route-IsRegistry moments id client (place_custom (some ((x, y), cells))) w r =
      run_custom-IsSound (moments 0) id x y (validate_custom_cells cells) w r
  route-IsRegistry moments id client (subscribe_to none) w r = r
  route-IsRegistry moments id client (subscribe_to (some ids)) w r =
      run_subscribe-IsSound client ids w r
  route-IsRegistry moments id client (unsubscribe_from none) w r = r
  route-IsRegistry moments id client (unsubscribe_from (some ids)) w r =
      run_unsubscribe-IsSound client ids w r
  route-IsRegistry moments id client ping w r = r
  route-IsRegistry moments id client unsupported w r = r

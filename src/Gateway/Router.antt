-- ===== src/Gateway/Router.antt =====
-- gateway/router.go: Route, with the limiter, the registry and the subscriptions behind it, for the
-- commands of one client. The JSON decoder is not part of the repository: a command carries what
-- parsePayload made of its payload, `none` being a payload that it refuses. Log lines are left out.
pub mod Safety
pub mod Custom
pub mod Charging
pub mod Positions
pub mod Painting
pub mod Quiet
pub mod Outcome
pub mod Subscriptions
pub mod Answers
use distributed_game_of_life.Prelude.{
  ℕ, zero, suc, ◌+◌, ◌≡◌, Bool, true, false, ◌&&◌, ltb, ◌==◌, if◌then◌else◌, length, List, [], ◌∷◌,
  ◌++◌, Option, none, some,
}
use distributed_game_of_life.Prelude.Int.{ℤ, add64}
use Prim.Native.String.{String}
use distributed_game_of_life.Simulation.Chunk.{ChunkId}
use distributed_game_of_life.Simulation.Registry.{
  Chunks, Config, get_or_create, spawn_cell, peek_chunk,
}
use distributed_game_of_life.Ratelimit.{Redis, allow_mutation, drain_n}
use distributed_game_of_life.Gateway.Coordinates.{world_to_chunk_local}
use distributed_game_of_life.Gateway.Shapes.{
  CellOffset, Validated, valid, empty_piece, out_of_bounds, too_many_cells, get_shape,
  validate_custom_cells, large_custom_threshold,
}
use distributed_game_of_life.Gateway.Pubsub.{Subscribers, ChunkStatePayload, subscribe, unsubscribe}

-- The parsed commands of gateway/models.go under their message types.
pub data Command : Type 0 where
  spawn_at : Option (ℤ × ℤ) → Command
  place_shape : Option ((ℤ × ℤ) × String) → Command
  place_custom : Option ((ℤ × ℤ) × List CellOffset) → Command
  subscribe_to unsubscribe_from : Option (List ChunkId) → Command
  ping unsupported : Command

-- The messages that the server sends back; an acknowledgement also repeats the command, and an error has a text
-- for people.
pub data Reply : Type 0 where
  spawn_ack place_shape_ack place_custom_ack : Reply
  chunk_state : ChunkStatePayload → Reply
  internal_error rate_limited unknown_shape invalid_payload invalid_format unknown_command : Reply
  invalid_piece : Validated → Reply

-- One call of the limiter: time.Now().Unix(), and whether Redis can be reached.
pub record Moment : Type 0 where
  pub now : ℕ
  pub connected : Bool

-- What Route works on: the buckets, what is behind the registry, its chunks, the subscriptions, and the
-- messages sent to the client so far.
pub record World (B : Type 0) (O : Type 0) : Type 0 where
  pub buckets : B
  pub outside : O
  pub chunks : Chunks
  pub subscribers : Subscribers
  pub sent : List Reply

module _ {B : Type 0} {O : Type 0} where
  -- client.WriteJSON and sendError
  abbrev pub send : Reply → World B O → World B O
  send r w = record w { sent = w.sent ++ r ∷ [] }

-- const LargeCustomPenalty
abbrev pub large_custom_penalty : ℕ
large_custom_penalty = 25

abbrev pub tokens_wanted : List CellOffset → ℕ
tokens_wanted cells =
    if ltb large_custom_threshold (length cells)
    then length cells + large_custom_penalty
    else length cells

module _ (redis : Redis) (config : Config) where
  abbrev pub Server : Type 0
  Server = World redis.Store config.Outside

  unfoldable pub spawn_world_cell : ℤ → ℤ → Server → Server
  unfolding world_to_chunk_local spawn_cell
  spawn_world_cell world_x world_y w =
      let (cx, lx) = world_to_chunk_local world_x in
      let (cy, ly) = world_to_chunk_local world_y in
      record w { chunks = spawn_cell config w.outside (record { x = cx; y = cy }) lx ly w.chunks }

  -- The loops that spawn the cells of a piece.
  unfoldable pub spawn_piece : ℤ → ℤ → List CellOffset → Server → Server
  unfolding spawn_world_cell
  spawn_piece x y [] w = w
  spawn_piece x y (c ∷ cells) w =
      spawn_piece x y cells (spawn_world_cell (add64 x c.x) (add64 y c.y) w)

  unfoldable pub judge : Option Bool → Server → Bool × Server
  judge none w = (false, send internal_error w)
  judge (some false) w = (false, send rate_limited w)
  judge (some true) w = (true, w)

  -- checkRateLimit
  unfoldable pub check_rate_limit : Moment → String → Server → Bool × Server
  unfolding judge allow_mutation
  check_rate_limit t id w =
      let (answer, buckets) = allow_mutation redis t.connected w.buckets id t.now in
      judge answer (record w { buckets = buckets })

  -- chargeN; the calls of the limiter take place at the moments from `i` on.
  unfoldable pub charge_n : (ℕ → Moment) → String → ℕ → ℕ → Server → Bool × Server
  unfolding check_rate_limit
  charge_n moments id zero i w = (true, w)
  charge_n moments id (suc n) i w =
      let (ok, charged) = check_rate_limit (moments i) id w in
      let rest = charge_n moments id n (i + 1) charged in if ok then rest else (false, charged)

  -- The rest of a command that is only carried out once it is paid for.
  abbrev pub if_charged : (Server → Server) → Bool × Server → Server
  if_charged run (false, w) = w
  if_charged run (true, w) = run w

  unfoldable pub run_spawn : Option (ℤ × ℤ) → Server → Server
  unfolding spawn_world_cell
  run_spawn none w = send invalid_payload w
  run_spawn (some (x, y)) w = send spawn_ack (spawn_world_cell x y w)

  unfoldable pub run_shape :
      (ℕ → Moment) → String → ℤ → ℤ → Option (List CellOffset) → Server → Server
  unfolding charge_n spawn_piece
  run_shape moments id x y none w = send unknown_shape w
  run_shape moments id x y (some cells) w =
      if_charged (λ paid. send place_shape_ack (spawn_piece x y cells paid))
        (charge_n moments id (length cells) 0 w)

  -- PLACE_CUSTOM after DrainN has answered.
  unfoldable pub run_drained : ℤ → ℤ → List CellOffset → Option ℕ → Server → Server
  unfolding spawn_piece
  run_drained x y cells none w = send internal_error w
  run_drained x y cells (some consumed) w =
      if consumed == 0 && ltb 0 (tokens_wanted cells)
      then send rate_limited w
      else send place_custom_ack (spawn_piece x y cells w)

  unfoldable pub run_custom : Moment → String → ℤ → ℤ → Validated → Server → Server
  unfolding run_drained drain_n
  run_custom t id x y (valid cells) w =
      let (consumed, buckets) =
        drain_n redis t.connected w.buckets id t.now (tokens_wanted cells) in
      run_drained x y cells consumed (record w { buckets = buckets })
  run_custom t id x y empty_piece w = send (invalid_piece empty_piece) w
  run_custom t id x y out_of_bounds w = send (invalid_piece out_of_bounds) w
  run_custom t id x y too_many_cells w = send (invalid_piece too_many_cells) w

  -- The body of SUBSCRIBE's loop, after PeekChunk.
  unfoldable pub show_chunk : ChunkId → List ℕ → Server → Server
  unfolding get_or_create
  show_chunk id [] w = w
  show_chunk id (c ∷ cells) w =
      send (chunk_state (record { x = id.x; y = id.y; cells = c ∷ cells }))
        (record w { chunks = get_or_create config w.outside id w.chunks })

  unfoldable pub run_subscribe : ℕ → List ChunkId → Server → Server
  unfolding subscribe peek_chunk show_chunk
  run_subscribe client [] w = w
  run_subscribe client (id ∷ ids) w = run_subscribe client ids (
      show_chunk id (peek_chunk config w.outside id w.chunks)
        (record w { subscribers = subscribe id client w.subscribers }))

  unfoldable pub run_unsubscribe : ℕ → List ChunkId → Server → Server
  unfolding unsubscribe
  run_unsubscribe client [] w = w
  run_unsubscribe client (id ∷ ids) w =
      run_unsubscribe client ids (record w { subscribers = unsubscribe id client w.subscribers })

  -- Route, for the client `client` of the player `id`; `moments` are those of its calls of the limiter.
  unfoldable pub route : (ℕ → Moment) → String → ℕ → Command → Server → Server
  unfolding check_rate_limit run_spawn run_shape get_shape run_custom validate_custom_cells
      run_subscribe run_unsubscribe
  route moments id client (spawn_at position) w =
      if_charged (run_spawn position) (check_rate_limit (moments 0) id w)
  route moments id client (place_shape none) w = send invalid_payload w
  route moments id client (place_shape (some ((x, y), shape))) w =
      run_shape moments id x y (get_shape shape) w
  route moments id client (place_custom none) w = send invalid_payload w
  route moments id client (place_custom (some ((x, y), cells))) w =
      run_custom (moments 0) id x y (validate_custom_cells cells) w
  route moments id client (subscribe_to none) w = send invalid_payload w
  route moments id client (subscribe_to (some ids)) w = run_subscribe client ids w
  route moments id client (unsubscribe_from none) w = send invalid_payload w
  route moments id client (unsubscribe_from (some ids)) w = run_unsubscribe client ids w
  route moments id client ping w = w
  route moments id client unsupported w = send unknown_command w

-- ===== src/Gateway/Router/Subscriptions.antt =====
-- What a command does to the subscriptions.
use distributed_game_of_life.Prelude.{
  ℕ, zero, suc, ◌+◌, ◌≡◌, refl, ap, ◌∙◌, Bool, true, false, ◌&&◌, ◌==◌, ltb, length, List, [], ◌∷◌,
  Option, none, some, Bool-cases, inl, inr,
}
use distributed_game_of_life.Prelude.Int.{ℤ, add64}
use Prim.Native.String.{String}
use distributed_game_of_life.Simulation.Chunk.{ChunkId}
use distributed_game_of_life.Simulation.Registry.{Config, peek_chunk}
use distributed_game_of_life.Ratelimit.{Redis, allow_mutation, drain_n}
use distributed_game_of_life.Gateway.Pubsub.{subscribe, unsubscribe}
use distributed_game_of_life.Gateway.Pubsub.Tidy.{Event, subscribed, unsubscribed, after}
use distributed_game_of_life.Gateway.Shapes.{
  CellOffset, Validated, valid, empty_piece, out_of_bounds, too_many_cells, get_shape,
  validate_custom_cells,
}
use distributed_game_of_life.Gateway.Router.{
  Command, spawn_at, place_shape, place_custom, subscribe_to, unsubscribe_from, ping, unsupported,
  Moment, Server, tokens_wanted, spawn_world_cell, spawn_piece, judge, check_rate_limit, charge_n,
  if_charged, run_spawn, run_shape, run_drained, run_custom, show_chunk, run_subscribe,
  run_unsubscribe, route,
}

-- The calls of PubSub that a command makes, the last one first.
abbrev pub subscribe_calls : ℕ → List ChunkId → List Event → List Event
subscribe_calls client [] before = before
subscribe_calls client (id ∷ ids) before =
    subscribe_calls client ids (subscribed id client ∷ before)

abbrev pub unsubscribe_calls : ℕ → List ChunkId → List Event → List Event
unsubscribe_calls client [] before = before
unsubscribe_calls client (id ∷ ids) before =
    unsubscribe_calls client ids (unsubscribed id client ∷ before)

-- The calls before a command, with those that it makes.
abbrev pub calls : ℕ → Command → List Event → List Event
calls client (subscribe_to (some ids)) before = subscribe_calls client ids before
calls client (unsubscribe_from (some ids)) before = unsubscribe_calls client ids before
calls client _ before = before

module _ (redis : Redis) (config : Config) where
  subscribers-spawn_piece :
      (x y : ℤ) (cells : List CellOffset) (w : Server redis config)
      → (spawn_piece redis config x y cells w).subscribers ≡ w.subscribers
  unfolding spawn_piece spawn_world_cell
  subscribers-spawn_piece x y [] w = refl
  subscribers-spawn_piece x y (c ∷ cells) w =
      subscribers-spawn_piece x y cells
        (spawn_world_cell redis config (add64 x c.x) (add64 y c.y) w)

  subscribers-judge :
      (a : Option Bool) (w : Server redis config)
      → (judge redis config a w).1.subscribers ≡ w.subscribers
  unfolding judge
  subscribers-judge none w = refl
  subscribers-judge (some false) w = refl
  subscribers-judge (some true) w = refl

  subscribers-check_rate_limit :
      (t : Moment) (id : String) (w : Server redis config)
      → (check_rate_limit redis config t id w).1.subscribers ≡ w.subscribers
  unfolding check_rate_limit
  subscribers-check_rate_limit t id w =
      let asked = allow_mutation redis t.connected w.buckets id t.now in
      subscribers-judge asked.0 (record w { buckets = asked.1 })

  subscribers-charge_n :
      (moments : ℕ → Moment) (id : String) (n i : ℕ) (w : Server redis config)
      → (charge_n redis config moments id n i w).1.subscribers ≡ w.subscribers
  unfolding charge_n
  subscribers-charge_n moments id zero i w = refl
  subscribers-charge_n moments id (suc n) i w =
      let w1 = (check_rate_limit redis config (moments i) id w).1 in
      let first = subscribers-check_rate_limit (moments i) id w in
      elim (Bool-cases (check_rate_limit redis config (moments i) id w).0) [
        | inl ok ↦ rw ok (subscribers-charge_n moments id n (i + 1) w1 ∙ first)
        | inr refused ↦ rw refused first
      ]

  subscribers-if_charged :
      (run : Server redis config → Server redis config) (charged : Bool × Server redis config)
      → ((w : Server redis config) → (run w).subscribers ≡ w.subscribers)
      → (if_charged redis config run charged).subscribers ≡ charged.1.subscribers
  subscribers-if_charged run (false, w) keeps = refl
  subscribers-if_charged run (true, w) keeps = keeps w

  subscribers-run_spawn :
      (position : Option (ℤ × ℤ)) (w : Server redis config)
      → (run_spawn redis config position w).subscribers ≡ w.subscribers
  unfolding run_spawn spawn_world_cell
  subscribers-run_spawn none w = refl
  subscribers-run_spawn (some (x, y)) w = refl

  subscribers-run_shape :
      (moments : ℕ → Moment) (id : String) (x y : ℤ) (found : Option (List CellOffset))
      (w : Server redis config)
      → (run_shape redis config moments id x y found w).subscribers ≡ w.subscribers
  unfolding run_shape
  subscribers-run_shape moments id x y none w = refl
  subscribers-run_shape moments id x y (some cells) w =
      subscribers-if_charged _ (charge_n redis config moments id (length cells) 0 w)
        (λ paid. subscribers-spawn_piece x y cells paid)
      ∙ subscribers-charge_n moments id (length cells) 0 w

  subscribers-run_drained :
      (x y : ℤ) (cells : List CellOffset) (answer : Option ℕ) (w : Server redis config)
      → (run_drained redis config x y cells answer w).subscribers ≡ w.subscribers
  unfolding run_drained
  subscribers-run_drained x y cells none w = refl
  subscribers-run_drained x y cells (some n) w =
      elim (Bool-cases (n == 0 && ltb 0 (tokens_wanted cells))) [
        | inl refused ↦ rw refused refl
        | inr placed ↦ rw placed (subscribers-spawn_piece x y cells w)
      ]

  subscribers-run_custom :
      (t : Moment) (id : String) (x y : ℤ) (v : Validated) (w : Server redis config)
      → (run_custom redis config t id x y v w).subscribers ≡ w.subscribers
  unfolding run_custom
  subscribers-run_custom t id x y (valid cells) w =
      let drained = drain_n redis t.connected w.buckets id t.now (tokens_wanted cells) in
      subscribers-run_drained x y cells drained.0 (record w { buckets = drained.1 })
  subscribers-run_custom t id x y empty_piece w = refl
  subscribers-run_custom t id x y out_of_bounds w = refl
  subscribers-run_custom t id x y too_many_cells w = refl

  subscribers-show_chunk :
      (id : ChunkId) (cells : List ℕ) (w : Server redis config)
      → (show_chunk redis config id cells w).subscribers ≡ w.subscribers
  unfolding show_chunk
  subscribers-show_chunk id [] w = refl
  subscribers-show_chunk id (c ∷ cells) w = refl

  subscribers-run_subscribe :
      (client : ℕ) (ids : List ChunkId) (w : Server redis config) (before : List Event)
      → w.subscribers ≡ after before
      → (run_subscribe redis config client ids w).subscribers
        ≡ after (subscribe_calls client ids before)
  unfolding run_subscribe
  subscribers-run_subscribe client [] w before e = e
  subscribers-run_subscribe client (id ∷ ids) w before e =
      let w1 = record w { subscribers = subscribe id client w.subscribers } in
      let cells = peek_chunk config w.outside id w.chunks in
      subscribers-run_subscribe client ids (show_chunk redis config id cells w1)
        (subscribed id client ∷ before)
        (subscribers-show_chunk id cells w1 ∙ ap (subscribe id client) e)

  subscribers-run_unsubscribe :
      (client : ℕ) (ids : List ChunkId) (w : Server redis config) (before : List Event)
      → w.subscribers ≡ after before
      → (run_unsubscribe redis config client ids w).subscribers
        ≡ after (unsubscribe_calls client ids before)
  unfolding run_unsubscribe
  subscribers-run_unsubscribe client [] w before e = e
  subscribers-run_unsubscribe client (id ∷ ids) w before e =
      subscribers-run_unsubscribe client ids
        (record w { subscribers = unsubscribe id client w.subscribers })
        (unsubscribed id client ∷ before) (ap (unsubscribe id client) e)

  -- Route makes the calls of PubSub that its command asks for, and no others.
  pub subscribers-route :
      (moments : ℕ → Moment) (id : String) (client : ℕ) (command : Command)
      (w : Server redis config) (before : List Event)
      → w.subscribers ≡ after before
      → (route redis config moments id client command w).subscribers
        ≡ after (calls client command before)
  unfolding route
  subscribers-route moments id client (spawn_at position) w before e =
      subscribers-if_charged (run_spawn redis config position)
        (check_rate_limit redis config (moments 0) id w)
        (λ paid. subscribers-run_spawn position paid)
      ∙ subscribers-check_rate_limit (moments 0) id w
      ∙ e
  subscribers-route moments id client (place_shape none) w before e = e
  subscribers-route moments id client (place_shape (some ((x, y), shape))) w before e =
      subscribers-run_shape moments id x y (get_shape shape) w ∙ e
  subscribers-route moments id client (place_custom none) w before e = e
  subscribers-route moments id client (place_custom (some ((x, y), cells))) w before e =
      subscribers-run_custom (moments 0) id x y (validate_custom_cells cells) w ∙ e
  subscribers-route moments id client (subscribe_to none) w before e = e
  subscribers-route moments id client (subscribe_to (some ids)) w before e =
      subscribers-run_subscribe client ids w before e
  subscribers-route moments id client (unsubscribe_from none) w before e = e
  subscribers-route moments id client (unsubscribe_from (some ids)) w before e =
      subscribers-run_unsubscribe client ids w before e
  subscribers-route moments id client ping w before e = e
  subscribers-route moments id client unsupported w before e = e

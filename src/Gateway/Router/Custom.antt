-- ===== src/Gateway/Router/Custom.antt =====
-- When PLACE_CUSTOM is refused.
use distributed_game_of_life.Prelude.{
  ℕ, ◌≡◌, ◌≢◌, ◌≤◌, refl, ap, ◌∙◌, arith, min, Bool, true, false, if◌then◌else◌, ◌&&◌, leb, ltb,
  ◌==◌, List, [], ◌∷◌, ◌++◌, Option, some, length,
}
use distributed_game_of_life.Prelude.Int.{ℤ, add64}
use Prim.Native.String.{String}
use distributed_game_of_life.Simulation.Registry.{Config}
use distributed_game_of_life.Ratelimit.{Redis, global, player, drain_n}
use distributed_game_of_life.Ratelimit.Effects.{tokens_at}
use distributed_game_of_life.Ratelimit.Charges.{allows, drains, drain_n_lem}
use distributed_game_of_life.Gateway.Shapes.{CellOffset, valid}
use distributed_game_of_life.Gateway.Shapes.Validation.{
  same_cell, occurs, any_outside, validate_custom_cells-valid,
}
use distributed_game_of_life.Gateway.Router.{
  place_custom, place_custom_ack, rate_limited, Moment, Server, tokens_wanted, spawn_world_cell,
  spawn_piece, run_drained, run_custom, route,
}

some_in : (c : CellOffset) (cells : List CellOffset) → occurs c cells ≡ true → 1 ≤ length cells
some_in c [] h = absurd (cc h)
some_in c (d ∷ cells) h = omega arith

same_cell_self : (c : CellOffset) → same_cell c c ≡ true
same_cell_self c = ground arith

first_in : (c : CellOffset) (cells : List CellOffset) → occurs c (c ∷ cells) ≡ true
first_in c cells = rw (same_cell_self c) refl

tokens_wanted_pos : (cells : List CellOffset) → 1 ≤ length cells → 1 ≤ tokens_wanted cells
tokens_wanted_pos cells h = ground arith

drained_zero :
    (g p n : ℕ)
    → 1 ≤ n
    → ((if ltb g 1 then 0 else min n p) == 0 && ltb 0 n)
      ≡ (if leb 1 g && leb 1 p then false else true)
drained_zero g p n h = ground arith

module _ (redis : Redis) (config : Config) where
  sent-spawn_piece :
      (x y : ℤ) (cells : List CellOffset) (w : Server redis config)
      → (spawn_piece redis config x y cells w).sent ≡ w.sent
  unfolding spawn_piece spawn_world_cell
  sent-spawn_piece x y [] w = refl
  sent-spawn_piece x y (c ∷ cells) w =
      sent-spawn_piece x y cells (spawn_world_cell redis config (add64 x c.x) (add64 y c.y) w)

  sent-run_drained :
      (x y : ℤ) (cells : List CellOffset) (answer : Option ℕ) (k : ℕ) (ok : Bool)
      (w : Server redis config)
      → answer ≡ some k
      → (k == 0 && ltb 0 (tokens_wanted cells)) ≡ (if ok then false else true)
      → (run_drained redis config x y cells answer w).sent
        ≡ w.sent ++ (if ok then place_custom_ack else rate_limited) ∷ []
  unfolding run_drained
  sent-run_drained x y cells answer k true w e test =
      rw (e, run_drained, test)
        (ap (λ sent. sent ++ place_custom_ack ∷ []) (sent-spawn_piece x y cells w))
  sent-run_drained x y cells answer k false w e test = rw (e, run_drained, test) refl

  run_custom-valid :
      (t : Moment) (id : String) (x y : ℤ) (cells : List CellOffset) (w : Server redis config)
      → t.connected ≡ true
      → 1 ≤ length cells
      → (run_custom redis config t id x y (valid cells) w).sent
        ≡ w.sent
          ++ (if allows redis w.buckets id t.now then place_custom_ack else rate_limited) ∷ []
  unfolding run_custom
  run_custom-valid t id x y cells w connected nonempty =
      let n = tokens_wanted cells in
      let drained = drain_n redis t.connected w.buckets id t.now n in
      let answered : drained.0 ≡ some (drains redis w.buckets id t.now n) =
        rw connected (drain_n_lem redis w.buckets id t.now n global).0 in
      sent-run_drained x y cells drained.0 (drains redis w.buckets id t.now n)
        (allows redis w.buckets id t.now) (record w { buckets = drained.1 }) answered
        (drained_zero (tokens_at redis w.buckets global t.now)
          (tokens_at redis w.buckets (player id) t.now) n (tokens_wanted_pos cells nonempty))

  -- A custom piece of at least one cell, all of them in the grid of 100 by 100, is answered by
  -- RATE_LIMITED when the global bucket or the player's own bucket has no token, and by PLACE_CUSTOM_ACK
  -- otherwise, if Redis is in reach.
  pub place_custom_lem :
      (moments : ℕ → Moment) (id : String) (client : ℕ) (x y : ℤ) (cells : List CellOffset)
      (w : Server redis config)
      → (moments 0).connected ≡ true
      → cells ≢ []
      → any_outside cells ≡ false
      → (route redis config moments id client (place_custom (some ((x, y), cells))) w).sent
        ≡ w.sent
          ++ (if allows redis w.buckets id (moments 0).now then place_custom_ack else rate_limited)
            ∷ []
  unfolding route
  place_custom_lem moments id client x y [] w connected some_cell inside = absurd (some_cell refl)
  place_custom_lem moments id client x y (c ∷ cells) w connected some_cell inside =
      let checked = validate_custom_cells-valid (c ∷ cells) some_cell inside in
      rw checked.1 (
        run_custom-valid (moments 0) id x y checked.0 w connected
          (some_in c checked.0 (checked.2.same c ∙ first_in c cells)))

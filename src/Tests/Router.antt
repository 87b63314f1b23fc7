-- ===== src/Tests/Router.antt =====
-- Tests of the model of gateway/router.go.
use distributed_game_of_life.Prelude.{
  ℕ, ◌≡◌, ◌≢◌, refl, true, false, if◌then◌else◌, List, [], ◌∷◌, ◌++◌, some,
}
use distributed_game_of_life.Prelude.Int.{pos, negsuc}
use distributed_game_of_life.Simulation.Registry.Invariant.{IsRegistry}
use distributed_game_of_life.Ratelimit.{refill}
use distributed_game_of_life.Ratelimit.Charges.{allows}
use distributed_game_of_life.Gateway.Shapes.{CellOffset}
use distributed_game_of_life.Gateway.Shapes.Validation.{any_outside}
use distributed_game_of_life.Gateway.Router.{
  Command, place_custom, place_custom_ack, rate_limited, Moment, Server, route,
}
use distributed_game_of_life.Gateway.Router.Safety.{route-IsRegistry}
use distributed_game_of_life.Gateway.Router.Charging.{payable, pays, charge_n_lem}
use distributed_game_of_life.Gateway.Router.{charge_n}
use distributed_game_of_life.Ratelimit.{player}
use distributed_game_of_life.Ratelimit.Effects.{tokens_at}
use distributed_game_of_life.Prelude.{leb, min, ◌-◌}
use distributed_game_of_life.Gateway.Router.Custom.{place_custom_lem}
use distributed_game_of_life.Tests.Ratelimit.{buckets, after_spending}
use distributed_game_of_life.Tests.Registry.{alone, active, active-IsRegistry}
use distributed_game_of_life.Tests.TickAll.{active-HasIds, alone-StoresBlank}
use distributed_game_of_life.Simulation.Chunk.Cells.{cell}
use distributed_game_of_life.Simulation.Registry.Invariant.{rows_in}
use distributed_game_of_life.Simulation.TickAll.Spread.{HasIds}
use distributed_game_of_life.Gateway.Router.{spawn_at}
use distributed_game_of_life.Gateway.Router.Positions.{painted}
use distributed_game_of_life.Gateway.Router.Quiet.{acked}
use distributed_game_of_life.Gateway.Router.{subscribe_to}
use distributed_game_of_life.Simulation.Registry.{peek_chunk}
use distributed_game_of_life.Tests.Registry.{elsewhere, near_origin}
use distributed_game_of_life.Gateway.Router.Answers.{
  shows_all, is_active, is_live, in_ids, route-subscribe_to,
}
use distributed_game_of_life.Gateway.Router.Outcome.{route_lem}
use distributed_game_of_life.Simulation.Chunk.{ChunkId}
use distributed_game_of_life.Prelude.{◌&&◌, ◌||◌, arith}

-- The player has no token left, and Redis is in reach.
abbrev moments : ℕ → Moment
moments i = record { now = 100; connected = true }

abbrev server : Server buckets alone
server = record {
  buckets = after_spending;
  outside = 0;
  chunks = active;
  subscribers = [];
  sent = [];
}

abbrev piece : List CellOffset
piece = record { x = pos 0; y = pos 3 } ∷ []

abbrev command : Command
command = place_custom (some ((negsuc 9, pos 70), piece))

piece-some : piece ≢ []
piece-some e = cc e

piece-inside : any_outside piece ≡ false
piece-inside = refl

-- The piece is refused, though the global bucket is full.
refused_test : (route buckets alone moments "ada" 1 command server).sent ≡ rate_limited ∷ []
unfolding route refill
refused_test =
    place_custom_lem buckets alone moments "ada" 1 (negsuc 9) (pos 70) piece server refl piece-some
      piece-inside

place_custom_lem_example :
    (route buckets alone moments "ada" 1 command server).sent
    ≡ []
      ++ (if allows buckets after_spending "ada" 100 then place_custom_ack else rate_limited) ∷ []
place_custom_lem_example =
    place_custom_lem buckets alone moments "ada" 1 (negsuc 9) (pos 70) piece server refl piece-some
      piece-inside

route-IsRegistry_example : IsRegistry (route buckets alone moments "ada" 1 command server).chunks
route-IsRegistry_example =
    route-IsRegistry buckets alone moments "ada" 1 command server active-IsRegistry

abbrev pub later : Moment
later = record { now = 102; connected = true }

charge_n_lem_example :
    ((charge_n buckets alone (λ k. later) "ada" 11 0 server).0
      ≡ leb 11 (payable buckets alone later "ada" refl server))
    × (tokens_at buckets
          (charge_n buckets alone (λ k. later) "ada" 11 0 server).1.buckets
          (player "ada")
          102
        ≡ tokens_at buckets after_spending (player "ada") 102
          - (if pays buckets alone later "ada" refl (player "ada")
              then min 11 (payable buckets alone later "ada" refl server)
              else 0))
charge_n_lem_example = charge_n_lem buckets alone later "ada" refl 11 0 server (player "ada")

abbrev pub spawn : Command
spawn = spawn_at (some (negsuc 9, pos 70))

abbrev spawned_in : ChunkId
spawned_in = record { x = negsuc 0; y = pos 1 }

route_lem_example :
    let after = route buckets alone (λ i. later) "ada" 1 spawn server in
    (cell (rows_in spawned_in after.chunks) 54 6 ≡ (
      acked after.sent && painted ((negsuc 9, pos 70) ∷ []) spawned_in 54 6
      || cell (rows_in spawned_in active) 54 6))
    × IsRegistry after.chunks
    × HasIds after.chunks
    × (after.outside ≡ 0)
route_lem_example =
    route_lem buckets alone (λ i. later) "ada" 1 spawn server spawned_in 54 6
      ((omega arith, omega arith), (omega arith, omega arith)) refl (alone-StoresBlank 0)
      active-IsRegistry active-HasIds (omega arith) (omega arith)

abbrev asked : List ChunkId
asked = near_origin ∷ elsewhere ∷ near_origin ∷ []

route-subscribe_to_example :
    let after = route buckets alone moments "ada" 1 (subscribe_to (some asked)) server in
    (after.sent ≡ [] ++ shows_all buckets alone 0 active asked)
    × (is_active elsewhere after.chunks ≡ (
        in_ids elsewhere asked && is_live (peek_chunk alone 0 elsewhere active)
        || is_active elsewhere active))
    × IsRegistry after.chunks
route-subscribe_to_example =
    route-subscribe_to buckets alone moments "ada" 1 asked server elsewhere active-IsRegistry

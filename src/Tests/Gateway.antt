-- ===== src/Tests/Gateway.antt =====
-- Tests of the models of gateway/.
use distributed_game_of_life.Prelude.{
  ℕ, ◌<◌, ◌≤◌, ◌≡◌, ◌≢◌, ◌↔◌, refl, arith, true, false, one_if, length, List, [], ◌∷◌, some,
}
use distributed_game_of_life.Prelude.Int.{pos, negsuc, ◌+ℤ◌, ◌*ℤ◌}
use distributed_game_of_life.Ratelimit.{player_params}
use distributed_game_of_life.Simulation.Chunk.{ChunkId, chunk_size}
use distributed_game_of_life.Simulation.ChunkMap.{has_key}
use distributed_game_of_life.Gateway.Coordinates.{world_to_chunk_local, world_to_chunk_local_lem}
use distributed_game_of_life.Gateway.Shapes.{
  CellOffset, valid, out_of_bounds, too_many_cells, get_shape, validate_custom_cells,
}
use distributed_game_of_life.Gateway.Shapes.Validation.{
  any_outside, IsCleaned, validate_custom_cells-valid, validate_custom_cells-out_of_bounds,
  validate_custom_cells-ne-too_many_cells,
}
use distributed_game_of_life.Gateway.Shapes.Affordable.{get_shape-affordable}
use distributed_game_of_life.Gateway.Pubsub.{Subscribers, broadcast}
use distributed_game_of_life.Gateway.Pubsub.Watching.{watches, IsTidy}
use distributed_game_of_life.Gateway.Pubsub.Tidy.{
  Event, subscribed, disconnected, after, last_word, writes_to, pubsub-refines, writes_to-broadcast,
}

world_to_chunk_local_test : world_to_chunk_local (negsuc 0) ≡ (negsuc 0, 63)
unfolding world_to_chunk_local
world_to_chunk_local_test = refl

world_to_chunk_local_lem_example :
    ((world_to_chunk_local (negsuc 99)).1 < 64)
    × (pos chunk_size *ℤ (world_to_chunk_local (negsuc 99)).0
          +ℤ pos (world_to_chunk_local (negsuc 99)).1
        ≡ negsuc 99)
world_to_chunk_local_lem_example = world_to_chunk_local_lem (negsuc 99) (omega arith)

abbrev corner : CellOffset
corner = record { x = pos 99; y = pos 0 }

abbrev beyond : CellOffset
beyond = record { x = pos 100; y = pos 0 }

abbrev twice : List CellOffset
twice = corner ∷ corner ∷ []

validate_custom_cells_test : validate_custom_cells twice ≡ valid (corner ∷ [])
unfolding validate_custom_cells
validate_custom_cells_test = refl

twice-inside : any_outside twice ≡ false
twice-inside = refl

twice-some : twice ≢ []
twice-some e = cc e

validate_custom_cells-valid_example :
    (out : List CellOffset) × (validate_custom_cells twice ≡ valid out) × IsCleaned twice out
validate_custom_cells-valid_example = validate_custom_cells-valid twice twice-some twice-inside

validate_custom_cells-out_of_bounds_example :
    (validate_custom_cells (corner ∷ beyond ∷ []) ≡ out_of_bounds)
    ↔ (any_outside (corner ∷ beyond ∷ []) ≡ true)
validate_custom_cells-out_of_bounds_example =
    validate_custom_cells-out_of_bounds (corner ∷ beyond ∷ [])

validate_custom_cells-ne-too_many_cells_example : validate_custom_cells twice ≢ too_many_cells
validate_custom_cells-ne-too_many_cells_example = validate_custom_cells-ne-too_many_cells twice

abbrev block : List CellOffset
block =
    record { x = pos 0; y = pos 0 }
    ∷ record { x = pos 1; y = pos 0 }
    ∷ record { x = pos 0; y = pos 1 }
    ∷ record { x = pos 1; y = pos 1 }
    ∷ []

block-found : get_shape "block" ≡ some block
unfolding get_shape
block-found = refl

get_shape-affordable_example :
    (validate_custom_cells block ≡ valid block) × (length block ≤ player_params.capacity)
get_shape-affordable_example = get_shape-affordable "block" block block-found

abbrev origin : ChunkId
origin = record { x = pos 0; y = pos 0 }

-- Clients 1 and 2 watch the chunk at the origin, then client 1 disconnects.
abbrev session : List Event
session = disconnected 1 ∷ subscribed origin 2 ∷ subscribed origin 1 ∷ []

pubsub-refines_example :
    IsTidy (after session)
    × ((c : ℕ) (j : ChunkId) → watches c j (after session) ≡ last_word session c j)
pubsub-refines_example = pubsub-refines session

abbrev one_watcher : Subscribers
one_watcher = (origin, 2 ∷ []) ∷ []

one_watcher-IsTidy : IsTidy one_watcher
unfolding has_key
one_watcher-IsTidy = ((refl, tt), (refl, (refl, tt), tt))

writes_to-broadcast_example :
    writes_to 2 ((broadcast (λ c. false) origin (65 ∷ []) one_watcher).writes)
    ≡ one_if (watches 2 origin one_watcher)
writes_to-broadcast_example =
    writes_to-broadcast (λ c. false) origin (65 ∷ []) one_watcher 2 one_watcher-IsTidy

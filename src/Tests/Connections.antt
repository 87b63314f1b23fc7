-- ===== src/Tests/Connections.antt =====
-- Two connections: one watches a chunk and stays, and one breaks.
use distributed_game_of_life.Prelude.{
  ℕ, ◌≡◌, refl, true, false, ◌==◌, if◌then◌else◌, List, [], ◌∷◌, Option, none, some,
}
use distributed_game_of_life.Prelude.Pigeonhole.{without}
use distributed_game_of_life.Simulation.Chunk.{snapshot}
use distributed_game_of_life.Simulation.ChunkMap.{find, put}
use distributed_game_of_life.Gateway.Pubsub.Watching.{watches}
use distributed_game_of_life.Gateway.Router.{Command, subscribe_to}
use distributed_game_of_life.Server.Connections.{
  unopened, Site, Happening, upgraded, read, happen_all,
}
use distributed_game_of_life.Server.Connections.Leaks.{IsOpen, happen_all-watches}
use distributed_game_of_life.Storage.{load_chunk}
use distributed_game_of_life.Tests.Ratelimit.{buckets}
use distributed_game_of_life.Tests.Registry.{elsewhere}
use distributed_game_of_life.Tests.Router.{later}
use distributed_game_of_life.Tests.Server.{start, every_write_works}
use distributed_game_of_life.Tests.Storage.{values}

-- The byte string 1 is the command to subscribe, and no other is valid.
abbrev understood : ℕ → Option Command
understood n = if n == 1 then some (subscribe_to (some (elsewhere ∷ []))) else none

abbrev idle : Site values buckets every_write_works ℕ understood
idle = record { system = start; connections = λ c. unopened }

abbrev evening : List (Happening values buckets every_write_works ℕ understood)
evening =
    upgraded 1 "ada" true
    ∷ upgraded 2 "bob" true
    ∷ upgraded 3 "eve" false
    ∷ read 1 (λ i. later) (some 1)
    ∷ read 2 (λ i. later) (some 1)
    ∷ read 3 (λ i. later) (some 1)
    ∷ read 2 (λ i. later) (some 7)
    ∷ read 2 (λ i. later) none
    ∷ read 2 (λ i. later) (some 1)
    ∷ []

abbrev after_it : Site values buckets every_write_works ℕ understood
after_it = happen_all values buckets every_write_works ℕ understood evening idle

ada_watches : watches 1 elsewhere after_it.system.world.subscribers ≡ true
unfolding happen_all watches find put without load_chunk snapshot
ada_watches = refl

bob_left : watches 2 elsewhere after_it.system.world.subscribers ≡ false
unfolding happen_all watches find put without load_chunk snapshot
bob_left = refl

happen_all-watches_example : IsOpen (after_it.connections 1)
happen_all-watches_example =
    happen_all-watches values buckets every_write_works ℕ understood evening idle 1 elsewhere refl
      ada_watches

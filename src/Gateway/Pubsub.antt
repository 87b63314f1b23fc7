-- ===== src/Gateway/Pubsub.antt =====
-- gateway/pubsub.go: which clients watch which chunk. A client is the number of its connection. The locks
-- are not modelled: each operation holds the one mutex from its first line to its last, and Broadcast only
-- gives it up after it has copied the set.
pub mod Watching
pub mod Tidy
use distributed_game_of_life.Prelude.{
  ℕ, ◌+◌, Bool, true, false, not, ◌||◌, if◌then◌else◌, one_if, contains, length, map, List, [], ◌∷◌,
  ◌++◌, Option, none, some,
}
use distributed_game_of_life.Prelude.Int.{ℤ}
use distributed_game_of_life.Prelude.Pigeonhole.{without}
use distributed_game_of_life.Simulation.Chunk.{ChunkId}
use distributed_game_of_life.Simulation.ChunkMap.{id_eq, find, put, delete}

-- PubSub.subscribers: the set of clients of each chunk, a set being a list without repetition.
abbrev pub Subscribers : Type 0
Subscribers = List (ChunkId × List ℕ)

abbrev pub is_empty : List ℕ → Bool
is_empty [] = true
is_empty (c ∷ cs) = false

-- subscribers[id], where a missing set reads as the nil map.
unfoldable pub clients_of : ChunkId → Subscribers → List ℕ
clients_of id m = elim (find id m) [ none ↦ [] | some clients ↦ clients ]

-- subscribers[id][client] = struct{}{}
unfoldable pub insert_client : ℕ → List ℕ → List ℕ
insert_client client clients = if contains client clients then clients else client ∷ clients

-- Subscribe
unfoldable pub subscribe : ChunkId → ℕ → Subscribers → Subscribers
unfolding clients_of insert_client
subscribe id client m = put id (insert_client client (clients_of id m)) m

-- The end of Unsubscribe: the set that is left is kept, or its entry is deleted when it is empty.
unfoldable pub keep_or_drop : ChunkId → List ℕ → Subscribers → Subscribers
keep_or_drop id subs m = if is_empty subs then delete id m else put id subs m

-- Unsubscribe
unfoldable pub unsubscribe : ChunkId → ℕ → Subscribers → Subscribers
unfolding clients_of keep_or_drop
unsubscribe id client m = keep_or_drop id (without client (clients_of id m)) m

-- UnsubscribeAll
unfoldable pub unsubscribe_all : ℕ → Subscribers → Subscribers
unsubscribe_all client [] = []
unsubscribe_all client ((id, subs) ∷ m) =
    let rest = unsubscribe_all client m in
    let left = without client subs in if is_empty left then rest else (id, left) ∷ rest

-- HasSubscribers
unfoldable pub has_subscribers : ChunkId → Subscribers → Bool
unfolding clients_of
has_subscribers id m = not (is_empty (clients_of id m))

pub record ChunkStatePayload : Type 0 where
  pub x : ℤ
  pub y : ℤ
  pub cells : List ℕ

-- What a Broadcast does: the writes it makes, and how far it moves the counter of dropped messages.
pub record Broadcasts : Type 0 where
  pub writes : List (ℕ × ChunkStatePayload)
  pub dropped : ℕ

unfoldable pub write_all : (ℕ → Bool) → ChunkStatePayload → List ℕ → Broadcasts
write_all fails payload [] = record { writes = []; dropped = 0 }
write_all fails payload (client ∷ clients) =
    let rest = write_all fails payload clients in
    record {
      writes = (client, payload) ∷ rest.writes;
      dropped = one_if (fails client) + rest.dropped;
    }

-- Broadcast; `fails` says for which clients WriteJSON returns an error.
unfoldable pub broadcast : (ℕ → Bool) → ChunkId → List ℕ → Subscribers → Broadcasts
unfolding clients_of write_all
broadcast fails id cells m =
    write_all fails (record { x = id.x; y = id.y; cells = cells }) (clients_of id m)

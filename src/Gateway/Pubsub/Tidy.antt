-- ===== src/Gateway/Pubsub/Tidy.antt =====
-- The map of gateway/pubsub.go stays tidy, HasSubscribers is right, a broadcast writes to each watcher
-- once, and any sequence of operations leaves the watchers that the sequence says.
use distributed_game_of_life.Prelude.{
  ℕ, ◌+◌, ◌≡◌, ◌∙◌, refl, ap, arith, Bool, false, not, ◌&&◌, ◌||◌, ◌==◌, contains, one_if, List, [],
  ◌∷◌, Bool-cases, ==→≡, inl, inr,
}
use distributed_game_of_life.Prelude.Pigeonhole.{DistinctNumbers, without, without-DistinctNumbers}
use distributed_game_of_life.Simulation.Chunk.{ChunkId}
use distributed_game_of_life.Simulation.ChunkMap.{
  id_eq, find, put, delete, put-DistinctKeys, delete-DistinctKeys,
}
use distributed_game_of_life.Gateway.Pubsub.{
  Subscribers, is_empty, clients_of, insert_client, subscribe, keep_or_drop, unsubscribe,
  unsubscribe_all, ChunkStatePayload, write_all, broadcast,
}
use distributed_game_of_life.Gateway.Pubsub.Watching.{
  watches, SetsOk, IsTidy, has_key-unsubscribe_all, watches-subscribe, watches-unsubscribe,
  watches-unsubscribe_all,
}

put-SetsOk :
    (id : ChunkId) (subs : List ℕ) (m : Subscribers)
    → is_empty subs ≡ false
    → DistinctNumbers subs
    → SetsOk m
    → SetsOk (put id subs m)
unfolding put
put-SetsOk id subs [] some_client d ok = (some_client, d, tt)
put-SetsOk id subs ((j, old) ∷ m) some_client d ok =
    ground (arith, put-SetsOk id subs m some_client d ok.2)

delete-SetsOk : (id : ChunkId) (m : Subscribers) → SetsOk m → SetsOk (delete id m)
unfolding delete
delete-SetsOk id [] ok = tt
delete-SetsOk id ((j, old) ∷ m) ok = ground (arith, delete-SetsOk id m ok.2)

clients_of-DistinctNumbers :
    (id : ChunkId) (m : Subscribers) → SetsOk m → DistinctNumbers (clients_of id m)
unfolding clients_of find
clients_of-DistinctNumbers id [] ok = tt
clients_of-DistinctNumbers id ((j, subs) ∷ m) ok = elim (Bool-cases (id_eq j id)) [
  | inl same ↦ rw (clients_of, same) ok.1
  | inr other ↦ rw (clients_of, other) (clients_of-DistinctNumbers id m ok.2)
]

insert_client-some : (c : ℕ) (subs : List ℕ) → is_empty (insert_client c subs) ≡ false
unfolding insert_client
insert_client-some c [] = refl
insert_client-some c (d ∷ subs) = ground arith

insert_client-DistinctNumbers :
    (c : ℕ) (subs : List ℕ) → DistinctNumbers subs → DistinctNumbers (insert_client c subs)
unfolding insert_client
insert_client-DistinctNumbers c subs d = elim (Bool-cases (contains c subs)) [
  | inl there ↦ rw there d
  | inr absent ↦ rw (insert_client, absent) (absent, d)
]

subscribe-IsTidy : (id : ChunkId) (c : ℕ) (m : Subscribers) → IsTidy m → IsTidy (subscribe id c m)
unfolding subscribe
subscribe-IsTidy id c m tidy =
    let subs = clients_of id m in
    (
      put-DistinctKeys id (insert_client c subs) m tidy.0,
      put-SetsOk id (insert_client c subs) m (insert_client-some c subs)
          (insert_client-DistinctNumbers c subs (clients_of-DistinctNumbers id m tidy.1)) tidy.1,
    )

keep_or_drop-IsTidy :
    (id : ChunkId) (subs : List ℕ) (m : Subscribers)
    → DistinctNumbers subs
    → IsTidy m
    → IsTidy (keep_or_drop id subs m)
unfolding keep_or_drop
keep_or_drop-IsTidy id [] m d tidy = (delete-DistinctKeys id m tidy.0, delete-SetsOk id m tidy.1)
keep_or_drop-IsTidy id (c ∷ subs) m d tidy =
    (put-DistinctKeys id (c ∷ subs) m tidy.0, put-SetsOk id (c ∷ subs) m refl d tidy.1)

unsubscribe-IsTidy :
    (id : ChunkId) (c : ℕ) (m : Subscribers) → IsTidy m → IsTidy (unsubscribe id c m)
unfolding unsubscribe
unsubscribe-IsTidy id c m tidy =
    keep_or_drop-IsTidy id (without c (clients_of id m)) m
      (without-DistinctNumbers c (clients_of id m) (clients_of-DistinctNumbers id m tidy.1)) tidy

unsubscribe_all-IsTidy : (c : ℕ) (m : Subscribers) → IsTidy m → IsTidy (unsubscribe_all c m)
unfolding unsubscribe_all
unsubscribe_all-IsTidy c [] tidy = tidy
unsubscribe_all-IsTidy c ((id, subs) ∷ m) tidy =
    let rest = unsubscribe_all-IsTidy c m (tidy.0.1, tidy.1.2) in
    elim (Bool-cases (is_empty (without c subs))) [
      | inl none_left ↦ rw none_left rest
      | inr some_left ↦ rw some_left (
        (has_key-unsubscribe_all c id m tidy.0.0, rest.0),
        (some_left, without-DistinctNumbers c subs tidy.1.1, rest.1),
      )
    ]

-- One call of an operation that changes the map.
pub data Event : Type 0 where
  subscribed unsubscribed : ChunkId → ℕ → Event
  disconnected : ℕ → Event

abbrev pub apply : Event → Subscribers → Subscribers
apply (subscribed id c) m = subscribe id c m
apply (unsubscribed id c) m = unsubscribe id c m
apply (disconnected c) m = unsubscribe_all c m

-- The map after some events, the last one first, from NewPubSub's empty map.
abbrev pub after : List Event → Subscribers
after [] = []
after (e ∷ es) = apply e (after es)

-- What the last event about the client and the chunk says: whether the client watches the chunk.
abbrev pub last_word : List Event → ℕ → ChunkId → Bool
last_word [] c j = false
last_word (subscribed id d ∷ es) c j = (id_eq id j && (d == c)) || last_word es c j
last_word (unsubscribed id d ∷ es) c j = last_word es c j && not (id_eq id j && (c == d))
last_word (disconnected d ∷ es) c j = last_word es c j && not (c == d)

after-IsTidy : (es : List Event) → IsTidy (after es)
after-IsTidy [] = (tt, tt)
after-IsTidy (subscribed id c ∷ es) = subscribe-IsTidy id c (after es) (after-IsTidy es)
after-IsTidy (unsubscribed id c ∷ es) = unsubscribe-IsTidy id c (after es) (after-IsTidy es)
after-IsTidy (disconnected c ∷ es) = unsubscribe_all-IsTidy c (after es) (after-IsTidy es)

watches-after : (es : List Event) (c : ℕ) (j : ChunkId) → watches c j (after es) ≡ last_word es c j
unfolding watches clients_of find
watches-after [] c j = refl
watches-after (subscribed id d ∷ es) c j =
    watches-subscribe c d id j (after es)
    ∙ ap (λ b. (id_eq id j && (d == c)) || b) (watches-after es c j)
watches-after (unsubscribed id d ∷ es) c j =
    watches-unsubscribe c d id j (after es)
    ∙ ap (λ b. b && not (id_eq id j && (c == d))) (watches-after es c j)
watches-after (disconnected d ∷ es) c j =
    watches-unsubscribe_all c d j (after es) (after-IsTidy es)
    ∙ ap (λ b. b && not (c == d)) (watches-after es c j)

-- After any sequence of Subscribe, Unsubscribe and UnsubscribeAll from the empty map, a client is in the
-- set of a chunk exactly when the last event about them says so; every set has a client and no client
-- twice, and each chunk has one set at most.
pub pubsub-refines :
    (es : List Event)
    → IsTidy (after es) × ((c : ℕ) (j : ChunkId) → watches c j (after es) ≡ last_word es c j)
pubsub-refines es = (after-IsTidy es, watches-after es)

-- How many of the writes go to the client.
abbrev pub writes_to : ℕ → List (ℕ × ChunkStatePayload) → ℕ
writes_to c [] = 0
writes_to c ((d, payload) ∷ writes) = one_if (d == c) + writes_to c writes

writes_to-none :
    (fails : ℕ → Bool) (p : ChunkStatePayload) (c : ℕ) (clients : List ℕ)
    → contains c clients ≡ false
    → writes_to c ((write_all fails p clients).writes) ≡ 0
unfolding write_all
writes_to-none fails p c [] h = refl
writes_to-none fails p c (d ∷ clients) h = ground (arith, writes_to-none fails p c clients)

writes_to-write_all :
    (fails : ℕ → Bool) (p : ChunkStatePayload) (c : ℕ) (clients : List ℕ)
    → DistinctNumbers clients
    → writes_to c ((write_all fails p clients).writes) ≡ one_if (contains c clients)
unfolding write_all
writes_to-write_all fails p c [] d = refl
writes_to-write_all fails p c (e ∷ clients) d = ground (
  arith,
  writes_to-write_all fails p c clients d.1,
  writes_to-none fails p e clients d.0,
  ==→≡ e c,
)

-- A broadcast writes to each client that watches the chunk exactly once, and to no other client,
-- whichever writes fail.
pub writes_to-broadcast :
    (fails : ℕ → Bool) (id : ChunkId) (cells : List ℕ) (m : Subscribers) (c : ℕ)
    → IsTidy m
    → writes_to c ((broadcast fails id cells m).writes) ≡ one_if (watches c id m)
unfolding broadcast watches
writes_to-broadcast fails id cells m c tidy =
    writes_to-write_all fails (record { x = id.x; y = id.y; cells = cells }) c (clients_of id m)
      (clients_of-DistinctNumbers id m tidy.1)

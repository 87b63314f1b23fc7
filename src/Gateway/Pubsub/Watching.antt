-- ===== src/Gateway/Pubsub/Watching.antt =====
-- Who watches what after each operation of gateway/pubsub.go, and that no empty set stays behind.
use distributed_game_of_life.Prelude.{
  ℕ, ◌≡◌, ◌∙◌, refl, sym, ap, arith, Bool, true, false, not, ◌&&◌, ◌||◌, ◌==◌, if◌then◌else◌,
  contains, List, [], ◌∷◌, Bool-cases, ==→≡, inl, inr,
}
use distributed_game_of_life.Prelude.Pigeonhole.{DistinctNumbers, without, contains-without}
use distributed_game_of_life.Simulation.Chunk.{ChunkId}
use distributed_game_of_life.Simulation.ChunkMap.{
  id_eq, id_eq_iff, find, has_key, put, delete, find-put, find-delete, DistinctKeys, find_absent,
}
use distributed_game_of_life.Gateway.Pubsub.{
  Subscribers, is_empty, clients_of, insert_client, subscribe, keep_or_drop, unsubscribe,
  unsubscribe_all,
}

-- The client is in the set of the chunk.
unfoldable pub watches : ℕ → ChunkId → Subscribers → Bool
watches client id m = contains client (clients_of id m)

-- Every set has a client, and no client twice.
abbrev pub SetsOk : Subscribers → Type 0
SetsOk [] = Unit {0}
SetsOk ((id, subs) ∷ m) = (is_empty subs ≡ false) × DistinctNumbers subs × SetsOk m

-- A map of subscribers: one set for each chunk, none of them empty.
abbrev pub IsTidy : Subscribers → Type 0
IsTidy m = DistinctKeys m × SetsOk m

clients_of-put :
    (id j : ChunkId) (subs : List ℕ) (m : Subscribers)
    → clients_of j (put id subs m) ≡ (if id_eq id j then subs else clients_of j m)
unfolding clients_of
clients_of-put id j subs m = ground (arith, find-put id j subs m)

clients_of-delete :
    (id j : ChunkId) (m : Subscribers)
    → clients_of j (delete id m) ≡ (if id_eq id j then [] else clients_of j m)
unfolding clients_of
clients_of-delete id j m = ground (arith, find-delete id j m)

pub contains-insert_client :
    (c d : ℕ) (subs : List ℕ) → contains c (insert_client d subs) ≡ ((d == c) || contains c subs)
unfolding insert_client
contains-insert_client c d subs = elim (Bool-cases (contains d subs)) [
  | inl there ↦ elim (Bool-cases (d == c)) [
    | inl same ↦ rw (there, same) (sym (ap (λ k. contains k subs) (==→≡ d c same)) ∙ there)
    | inr other ↦ rw (there, other) refl
  ]
  | inr absent ↦ rw absent refl
]

-- Subscribe makes the client watch the chunk, and changes nothing else.
pub watches-subscribe :
    (c d : ℕ) (id j : ChunkId) (m : Subscribers)
    → watches c j (subscribe id d m) ≡ ((id_eq id j && (d == c)) || watches c j m)
unfolding watches subscribe
watches-subscribe c d id j m = elim (Bool-cases (id_eq id j)) [
  | inl same ↦
      rw
        (
          clients_of-put id j (insert_client d (clients_of id m)) m,
          same,
          contains-insert_client c d (clients_of id m),
          (id_eq_iff id j).0 same,
        )
        refl
  | inr other ↦ rw (clients_of-put id j (insert_client d (clients_of id m)) m, other) refl
]

keep_or_drop_lem :
    (id j : ChunkId) (subs : List ℕ) (m : Subscribers)
    → clients_of j (keep_or_drop id subs m) ≡ (if id_eq id j then subs else clients_of j m)
unfolding keep_or_drop
keep_or_drop_lem id j [] m = clients_of-delete id j m
keep_or_drop_lem id j (c ∷ subs) m = clients_of-put id j (c ∷ subs) m

-- Unsubscribe makes the client watch the chunk no more, and changes nothing else.
pub watches-unsubscribe :
    (c d : ℕ) (id j : ChunkId) (m : Subscribers)
    → watches c j (unsubscribe id d m) ≡ (watches c j m && not (id_eq id j && (c == d)))
unfolding watches unsubscribe
watches-unsubscribe c d id j m = elim (Bool-cases (id_eq id j)) [
  | inl same ↦
      rw
        (
          keep_or_drop_lem id j (without d (clients_of id m)) m,
          same,
          contains-without d c (clients_of id m),
          (id_eq_iff id j).0 same,
        )
        refl
  | inr other ↦ rw (keep_or_drop_lem id j (without d (clients_of id m)) m, other) (ground arith)
]

watches_absent :
    (c : ℕ) (j : ChunkId) (m : Subscribers) → has_key j m ≡ false → watches c j m ≡ false
unfolding watches clients_of
watches_absent c j m h = rw (clients_of, find_absent j m h) refl

watches_cons :
    (c : ℕ) (j id : ChunkId) (subs : List ℕ) (m : Subscribers)
    → watches c j ((id, subs) ∷ m) ≡ (if id_eq id j then contains c subs else watches c j m)
unfolding watches clients_of find
watches_cons c j id subs m = ground arith

pub has_key-unsubscribe_all :
    (d : ℕ) (j : ChunkId) (m : Subscribers)
    → has_key j m ≡ false
    → has_key j (unsubscribe_all d m) ≡ false
unfolding has_key unsubscribe_all
has_key-unsubscribe_all d j [] h = refl
has_key-unsubscribe_all d j ((id, subs) ∷ m) h = ground (arith, has_key-unsubscribe_all d j m)

contains_empty : (c : ℕ) (subs : List ℕ) → is_empty subs ≡ true → contains c subs ≡ false
contains_empty c [] h = refl
contains_empty c (d ∷ subs) h = cc

-- A chunk without an entry has no watcher after UnsubscribeAll either.
gone :
    (c d : ℕ) (j id : ChunkId) (m : Subscribers)
    → has_key id m ≡ false
    → id_eq id j ≡ true
    → watches c j (unsubscribe_all d m) ≡ false
gone c d j id m absent same =
    watches_absent c j (unsubscribe_all d m)
      (has_key-unsubscribe_all d j m (rw (sym ((id_eq_iff id j).0 same)) absent))

watches_kept :
    (c d : ℕ) (j id : ChunkId) (subs : List ℕ) (m : Subscribers)
    → watches c j (unsubscribe_all d m) ≡ (watches c j m && not (c == d))
    → (id_eq id j ≡ true → watches c j (unsubscribe_all d m) ≡ false)
    → watches c j (unsubscribe_all d ((id, subs) ∷ m))
      ≡ (watches c j ((id, subs) ∷ m) && not (c == d))
unfolding unsubscribe_all
watches_kept c d j id subs m later absent = ground (
  arith,
  watches_cons c j id subs m,
  watches_cons c j id (without d subs) (unsubscribe_all d m),
  contains-without d c subs,
  contains_empty c (without d subs),
)

-- UnsubscribeAll takes the client out of every chunk, and leaves the other clients where they are.
pub watches-unsubscribe_all :
    (c d : ℕ) (j : ChunkId) (m : Subscribers)
    → IsTidy m
    → watches c j (unsubscribe_all d m) ≡ (watches c j m && not (c == d))
unfolding unsubscribe_all has_key
watches-unsubscribe_all c d j [] tidy = rw (watches_absent c j [] refl) refl
watches-unsubscribe_all c d j ((id, subs) ∷ m) tidy =
    watches_kept c d j id subs m (watches-unsubscribe_all c d j m (tidy.0.1, tidy.1.2))
      (gone c d j id m tidy.0.0)

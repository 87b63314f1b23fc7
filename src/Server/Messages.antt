-- ===== src/Server/Messages.antt =====
-- The messages about one chunk that Broadcast sends to one client.
use distributed_game_of_life.Prelude.{
  ℕ, suc, ◌≡◌, refl, sym, ap, ◌∙◌, arith, Bool, true, false, ◌&&◌, ◌==◌, one_if, ◌+◌, replicate,
  if◌then◌else◌, List, [], ◌∷◌, ◌++◌, Bool-cases, inl, inr,
}
use distributed_game_of_life.Simulation.Chunk.{ChunkId}
use distributed_game_of_life.Simulation.ChunkMap.{id_eq}
use distributed_game_of_life.Simulation.Registry.{}
use distributed_game_of_life.Simulation.TickAll.{}
use distributed_game_of_life.Simulation.TickAll.Run.{}
use distributed_game_of_life.Gateway.Pubsub.{
  Subscribers, ChunkStatePayload, write_all, clients_of, broadcast,
}
use distributed_game_of_life.Gateway.Pubsub.Watching.{IsTidy, watches}
use distributed_game_of_life.Gateway.Pubsub.Tidy.{writes_to, writes_to-broadcast}
use distributed_game_of_life.Server.{}

-- The chunk that a message is about.
abbrev pub about : ChunkStatePayload → ChunkId
about p = record { x = p.x; y = p.y }

-- The cells of the chunk that the client has been sent, message by message.
abbrev pub updates : ℕ → ChunkId → List (ℕ × ChunkStatePayload) → List (List ℕ)
updates c k [] = []
updates c k ((d, p) ∷ writes) =
    let rest = updates c k writes in if d == c && id_eq (about p) k then p.cells ∷ rest else rest

pub updates-append :
    (c : ℕ) (k : ChunkId) (before after : List (ℕ × ChunkStatePayload))
    → updates c k (before ++ after) ≡ updates c k before ++ updates c k after
updates-append c k [] after = refl
updates-append c k ((d, p) ∷ before) after = elim (Bool-cases (d == c && id_eq (about p) k)) [
  | inl sent ↦ rw sent (ap (◌∷◌ p.cells) (updates-append c k before after))
  | inr other ↦ rw other (updates-append c k before after)
]

one_more : (n : ℕ) → 1 + n ≡ suc n
one_more n = omega arith

none_more : (n : ℕ) → 0 + n ≡ n
none_more n = omega arith

one_copy : (n : ℕ) (cells : List ℕ) → replicate (1 + n) cells ≡ cells ∷ replicate n cells
one_copy n cells = rw (one_more n) refl

no_copy : (n : ℕ) (cells : List ℕ) → replicate (0 + n) cells ≡ replicate n cells
no_copy n cells = rw (none_more n) refl

updates-write_all :
    (fails : ℕ → Bool) (p : ChunkStatePayload) (c : ℕ) (k : ChunkId) (clients : List ℕ)
    → updates c k (write_all fails p clients).writes ≡ (
        if id_eq (about p) k
        then replicate (writes_to c (write_all fails p clients).writes) p.cells
        else [])
unfolding write_all
updates-write_all fails p c k [] = elim (Bool-cases (id_eq (about p) k)) [
  | inl own ↦ rw own refl
  | inr apart ↦ rw apart refl
]
updates-write_all fails p c k (d ∷ clients) =
    let rest = updates-write_all fails p c k clients in
    let n = writes_to c (write_all fails p clients).writes in
    elim (Bool-cases (id_eq (about p) k)) [
      | inl own ↦ elim (Bool-cases (d == c)) [
        | inl sent ↦ rw (own, sent) (ap (◌∷◌ p.cells) (rw own at rest) ∙ sym (one_copy n p.cells))
        | inr other ↦ rw (own, other) ((rw own at rest) ∙ sym (no_copy n p.cells))
      ]
      | inr apart ↦ elim (Bool-cases (d == c)) [
        | inl sent ↦ rw (apart, sent) (rw apart at rest)
        | inr other ↦ rw (apart, other) (rw apart at rest)
      ]
    ]

copies :
    (b own : Bool) (cells : List ℕ)
    → (if own then replicate (one_if b) cells else [])
      ≡ (if own then (if b then cells ∷ [] else []) else [])
copies true own cells = refl
copies false own cells = refl

-- Broadcast sends the cells once to each client that watches the chunk, and nothing about another chunk.
pub updates-broadcast :
    (fails : ℕ → Bool) (id k : ChunkId) (cells : List ℕ) (m : Subscribers) (c : ℕ)
    → IsTidy m
    → updates c k (broadcast fails id cells m).writes
      ≡ (if id_eq id k then (if watches c id m then cells ∷ [] else []) else [])
unfolding broadcast
updates-broadcast fails id k cells m c tidy =
    updates-write_all fails (record { x = id.x; y = id.y; cells = cells }) c k (clients_of id m)
    ∙ rw (writes_to-broadcast fails id cells m c tidy) (copies (watches c id m) (id_eq id k) cells)

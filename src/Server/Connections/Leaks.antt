-- ===== src/Server/Connections/Leaks.antt =====
-- No subscription outlives its connection.
use distributed_game_of_life.Prelude.{
  ℕ, ◌≡◌, refl, sym, ◌∙◌, arith, Bool, true, false, ◌==◌, ==→≡, ≡→==, List, [], ◌∷◌, Option, none,
  some, Bool-cases, inl, inr,
}
use Prim.Native.String.{String}
use distributed_game_of_life.Simulation.Chunk.{ChunkId}
use distributed_game_of_life.Ratelimit.{Redis}
use distributed_game_of_life.Storage.{Backend}
use distributed_game_of_life.Gateway.Pubsub.Watching.{watches}
use distributed_game_of_life.Gateway.Pubsub.Tidy.{disconnected, after, last_word, pubsub-refines}
use distributed_game_of_life.Gateway.Pubsub.Tidy as Tidy
use distributed_game_of_life.Gateway.Router.{
  Command, spawn_at, place_shape, place_custom, subscribe_to, unsubscribe_from, ping, unsupported,
  Moment,
}
use distributed_game_of_life.Gateway.Router.Subscriptions.{
  calls, subscribe_calls, unsubscribe_calls,
}
use distributed_game_of_life.Server.{ticked, received, closed, step}
use distributed_game_of_life.Server.Watchers.{subscribers-step}
use distributed_game_of_life.Server.Connections.{
  Connection, unopened, gone, opened, Site, Happening, ticking, upgraded, read, open_connection,
  read_message, happen, happen_all,
}

-- The calls for other clients change nothing for this one.
subscribe_calls-other :
    (c d : ℕ) (ids : List ChunkId) (before : List Tidy.Event) (k : ChunkId)
    → (d == c) ≡ false
    → last_word (subscribe_calls d ids before) c k ≡ last_word before c k
subscribe_calls-other c d [] before k other = refl
subscribe_calls-other c d (id ∷ ids) before k other =
    subscribe_calls-other c d ids (Tidy.subscribed id d ∷ before) k other ∙ rw other (ground arith)

unsubscribe_calls-other :
    (c d : ℕ) (ids : List ChunkId) (before : List Tidy.Event) (k : ChunkId)
    → (c == d) ≡ false
    → last_word (unsubscribe_calls d ids before) c k ≡ last_word before c k
unsubscribe_calls-other c d [] before k other = refl
unsubscribe_calls-other c d (id ∷ ids) before k other =
    unsubscribe_calls-other c d ids (Tidy.unsubscribed id d ∷ before) k other
    ∙ rw other (ground arith)

flip_false : (c d : ℕ) → (d == c) ≡ false → (c == d) ≡ false
flip_false c d other = ground arith

calls-other :
    (c d : ℕ) (command : Command) (before : List Tidy.Event) (k : ChunkId)
    → (d == c) ≡ false
    → last_word (calls d command before) c k ≡ last_word before c k
calls-other c d (subscribe_to (some ids)) before k other =
    subscribe_calls-other c d ids before k other
calls-other c d (unsubscribe_from (some ids)) before k other =
    unsubscribe_calls-other c d ids before k (flip_false c d other)
calls-other c d (subscribe_to none) before k other = refl
calls-other c d (unsubscribe_from none) before k other = refl
calls-other c d (spawn_at p) before k other = refl
calls-other c d (place_shape p) before k other = refl
calls-other c d (place_custom p) before k other = refl
calls-other c d ping before k other = refl
calls-other c d unsupported before k other = refl

-- A connection is in its read loop.
abbrev pub IsOpen : Connection → Type 0
IsOpen a = (addr : String) × (a ≡ opened addr)

abbrev is_open : Connection → Bool
is_open unopened = false
is_open gone = false
is_open (opened addr) = true

IsOpen-intro : (a : Connection) → ¬ (is_open a ≡ false) → IsOpen a
IsOpen-intro unopened h = absurd (h refl)
IsOpen-intro gone h = absurd (h refl)
IsOpen-intro (opened addr) h = (addr, refl)

module _ (backend : Backend) (redis : Redis) (fails : ℕ → ℕ → Bool) (Bytes : Type 0)
    (unmarshal : Bytes → Option Command) where
  -- The subscriptions are those after some calls of PubSub, which leave none to a client whose connection is
  -- not in its read loop.
  record IsTight (s : Site backend redis fails Bytes unmarshal) : Type 0 where
    before : List Tidy.Event
    same : s.system.world.subscribers ≡ after before
    tight :
        (c : ℕ) → is_open (s.connections c) ≡ false → (k : ChunkId) → last_word before c k ≡ false

  -- The handler of an open connection works on the server.
  served-IsTight :
      (s : Site backend redis fails Bytes unmarshal) (d : ℕ) (moments : ℕ → Moment) (addr : String)
      (message : Option Command)
      → s.connections d ≡ opened addr
      → IsTight s
      → IsTight (record s {
        system = step backend redis fails (received moments addr d message) s.system;
      })
  served-IsTight s d moments addr none is_it t = record {
    before = t.before;
    same =
        subscribers-step backend redis fails (received moments addr d none) s.system t.before
          t.same;
    tight = t.tight;
  }
  served-IsTight s d moments addr (some command) is_it t = record {
    before = calls d command t.before;
    same =
        subscribers-step backend redis fails (received moments addr d (some command)) s.system
          t.before t.same;
    tight = λ c shut k. elim (Bool-cases (d == c)) [
      | inl own ↦
          let same : s.connections c ≡ opened addr = rw (==→≡ d c own) at is_it in
          let ended : true ≡ false = rw same at shut in absurd (cc ended)
      | inr other ↦ calls-other c d command t.before k other ∙ t.tight c shut k
    ];
  }

  read_message-IsTight :
      (d : ℕ) (moments : ℕ → Moment) (bytes : Option Bytes) (a : Connection)
      (s : Site backend redis fails Bytes unmarshal)
      → s.connections d ≡ a
      → IsTight s
      → IsTight (read_message backend redis fails Bytes unmarshal d moments bytes a s)
  unfolding read_message
  read_message-IsTight d moments (some bytes) (opened addr) s is_it t =
      served-IsTight s d moments addr (unmarshal bytes) is_it t
  read_message-IsTight d moments none (opened addr) s is_it t = record {
    before = disconnected d ∷ t.before;
    same = subscribers-step backend redis fails (closed d) s.system t.before t.same;
    tight = λ c shut k. elim (Bool-cases (d == c)) [
      | inl own ↦ rw (≡→== c d (sym (==→≡ d c own))) (ground arith)
      | inr other ↦ rw (t.tight c (rw other at shut) k) refl
    ];
  }
  read_message-IsTight d moments (some bytes) unopened s shut t = t
  read_message-IsTight d moments none unopened s shut t = t
  read_message-IsTight d moments (some bytes) gone s shut t = t
  read_message-IsTight d moments none gone s shut t = t

  open_connection-IsTight :
      (d : ℕ) (addr : String) (ok : Bool) (a : Connection)
      (s : Site backend redis fails Bytes unmarshal)
      → s.connections d ≡ a
      → IsTight s
      → IsTight (open_connection backend redis fails Bytes unmarshal d addr ok a s)
  unfolding open_connection
  open_connection-IsTight d addr true unopened s shut t = record {
    before = t.before;
    same = t.same;
    tight = λ c now k. elim (Bool-cases (d == c)) [
      | inl own ↦ let ended : true ≡ false = rw own at now in absurd (cc ended)
      | inr other ↦ t.tight c (rw other at now) k
    ];
  }
  open_connection-IsTight d addr false unopened s shut t = t
  open_connection-IsTight d addr true gone s shut t = t
  open_connection-IsTight d addr false gone s shut t = t
  open_connection-IsTight d addr true (opened b) s shut t = t
  open_connection-IsTight d addr false (opened b) s shut t = t

  happen-IsTight :
      (h : Happening backend redis fails Bytes unmarshal)
      (s : Site backend redis fails Bytes unmarshal)
      → IsTight s
      → IsTight (happen backend redis fails Bytes unmarshal h s)
  unfolding happen
  happen-IsTight (ticking round) s t = record {
    before = t.before;
    same = subscribers-step backend redis fails (ticked round) s.system t.before t.same;
    tight = t.tight;
  }
  happen-IsTight (upgraded c addr ok) s t =
      open_connection-IsTight c addr ok (s.connections c) s refl t
  happen-IsTight (read c moments bytes) s t =
      read_message-IsTight c moments bytes (s.connections c) s refl t

  happen_all-IsTight :
      (hs : List (Happening backend redis fails Bytes unmarshal))
      (s : Site backend redis fails Bytes unmarshal)
      → IsTight s
      → IsTight (happen_all backend redis fails Bytes unmarshal hs s)
  unfolding happen_all
  happen_all-IsTight [] s t = t
  happen_all-IsTight (h ∷ hs) s t =
      happen_all-IsTight hs (happen backend redis fails Bytes unmarshal h s) (happen-IsTight h s t)

  -- From a server that nobody watches, after any sequence of ticks, upgrades, messages and errors of
  -- ReadMessage on any connections: a client that watches a chunk has its connection in the read loop. A
  -- subscription never outlives the connection that it was made on.
  pub happen_all-watches :
      (hs : List (Happening backend redis fails Bytes unmarshal))
      (s : Site backend redis fails Bytes unmarshal) (c : ℕ) (k : ChunkId)
      → s.system.world.subscribers ≡ []
      → let s' = happen_all backend redis fails Bytes unmarshal hs s in
        watches c k s'.system.world.subscribers ≡ true → IsOpen (s'.connections c)
  happen_all-watches hs s c k nobody seen =
      let s' = happen_all backend redis fails Bytes unmarshal hs s in
      let t =
        happen_all-IsTight hs s (record { before = []; same = nobody; tight = λ d shut j. refl }) in
      IsOpen-intro (s'.connections c) (λ shut.
        let unwatched = (pubsub-refines t.before).1 c k ∙ t.tight c shut k in
        cc (sym (rw (t.same) at seen) ∙ unwatched))

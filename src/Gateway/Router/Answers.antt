-- ===== src/Gateway/Router/Answers.antt =====
-- What SUBSCRIBE shows of the chunks.
use distributed_game_of_life.Prelude.{
  ℕ, ◌≡◌, refl, sym, ap, ap₂, ◌∙◌, Bool, true, false, List, [], ◌∷◌, ◌++◌, ◌&&◌, ◌||◌, arith, none,
  some, Bool-cases, inl, inr,
}
use mathlib.Core.List.{append_assoc, append-nil}
use distributed_game_of_life.Simulation.Chunk.{ChunkId}
use distributed_game_of_life.Simulation.ChunkMap.{id_eq, id_eq_iff, find}
use Prim.Native.String.{String}
use distributed_game_of_life.Simulation.Registry.{Chunks, Config, get_or_create, peek_chunk}
use distributed_game_of_life.Simulation.Registry.Invariant.{IsRegistry, get_or_create_lem}
use distributed_game_of_life.Simulation.Registry.Spawns.{peek_lem}
use distributed_game_of_life.Ratelimit.{Redis}
use distributed_game_of_life.Gateway.Pubsub.{Subscribers, subscribe}
use distributed_game_of_life.Gateway.Router.{
  Reply, chunk_state, Moment, subscribe_to, route, Server, show_chunk, run_subscribe,
}

-- The message that shows a chunk, if it has a live cell.
abbrev pub shows : ChunkId → List ℕ → List Reply
shows id [] = []
shows id (c ∷ cells) = chunk_state (record { x = id.x; y = id.y; cells = c ∷ cells }) ∷ []

-- There is a live cell.
abbrev pub is_live : List ℕ → Bool
is_live [] = false
is_live (c ∷ cells) = true

abbrev pub in_ids : ChunkId → List ChunkId → Bool
in_ids k [] = false
in_ids k (id ∷ ids) = id_eq id k || in_ids k ids

-- The chunk has an entry in the registry.
abbrev pub is_active : ChunkId → Chunks → Bool
is_active k m = elim (find k m) [ none ↦ false | some state ↦ true ]

shown_or : (a b c d : Bool) → (b && d || (a && d || c)) ≡ ((a || b) && d || c)
shown_or a b c d = ground arith

module _ (redis : Redis) (config : Config) where
  open config use {Outside, load}

  -- The messages that show some chunks of the registry.
  abbrev pub shows_all : Outside → Chunks → List ChunkId → List Reply
  shows_all o m [] = []
  shows_all o m (id ∷ ids) = shows id (peek_chunk config o id m) ++ shows_all o m ids

  -- Making a chunk active changes nothing of what PeekChunk shows.
  peek_chunk-get_or_create_same :
      (o : Outside) (id k : ChunkId) (m : Chunks)
      → IsRegistry m
      → peek_chunk config o k (get_or_create config o id m) ≡ peek_chunk config o k m
  unfolding peek_chunk
  peek_chunk-get_or_create_same o id k m r =
      rw ((get_or_create_lem config o id k m r).1) (elim (Bool-cases (id_eq id k)) [
        | inl same ↦
            rw (same, sym ((id_eq_iff id k).0 same)) (sym (peek_lem config o id (find id m)))
        | inr other ↦ rw other refl
      ])

  is_active-get_or_create :
      (o : Outside) (id k : ChunkId) (m : Chunks)
      → IsRegistry m
      → is_active k (get_or_create config o id m) ≡ (id_eq id k || is_active k m)
  is_active-get_or_create o id k m r =
      rw ((get_or_create_lem config o id k m r).1, is_active)
        (elim (Bool-cases (id_eq id k)) [ inl same ↦ rw same refl | inr other ↦ rw other refl ])

  shows_all_ext :
      (o : Outside) (m m' : Chunks) (ids : List ChunkId)
      → ((k : ChunkId) → peek_chunk config o k m' ≡ peek_chunk config o k m)
      → shows_all o m' ids ≡ shows_all o m ids
  shows_all_ext o m m' [] same = refl
  shows_all_ext o m m' (id ∷ ids) same = rw (same id, shows_all_ext o m m' ids same) refl

  -- A chunk is shown or left alone.
  record IsShown (id : ChunkId) (cells : List ℕ) (w w' : Server redis config) : Type 0 where
    registry : IsRegistry w'.chunks
    outside : w'.outside ≡ w.outside
    sent : w'.sent ≡ w.sent ++ shows id cells
    peeks :
        (k : ChunkId)
        → peek_chunk config w.outside k w'.chunks ≡ peek_chunk config w.outside k w.chunks
    active :
        (k : ChunkId)
        → is_active k w'.chunks ≡ (id_eq id k && is_live cells || is_active k w.chunks)

  show_chunk-IsShown :
      (id : ChunkId) (cells : List ℕ) (w : Server redis config)
      → IsRegistry w.chunks
      → IsShown id cells w (show_chunk redis config id cells w)
  unfolding show_chunk
  show_chunk-IsShown id [] w r = record {
    registry = r;
    outside = refl;
    sent = sym (append-nil w.sent);
    peeks = λ k. refl;
    active = λ k. ground arith;
  }
  show_chunk-IsShown id (c ∷ cells) w r = record {
    registry = (get_or_create_lem config w.outside id id w.chunks r).0;
    outside = refl;
    sent = refl;
    peeks = λ k. peek_chunk-get_or_create_same w.outside id k w.chunks r;
    active = λ k. is_active-get_or_create w.outside id k w.chunks r ∙ ground arith;
  }

  -- The chunks that were shown.
  record IsAnswered (ids : List ChunkId) (w w' : Server redis config) : Type 0 where
    registry : IsRegistry w'.chunks
    sent : w'.sent ≡ w.sent ++ shows_all w.outside w.chunks ids
    active :
        (k : ChunkId)
        → is_active k w'.chunks ≡ (
            in_ids k ids && is_live (peek_chunk config w.outside k w.chunks)
            || is_active k w.chunks)

  own_live :
      (w : Server redis config) (id k : ChunkId)
      → (id_eq id k && is_live (peek_chunk config w.outside id w.chunks))
        ≡ (id_eq id k && is_live (peek_chunk config w.outside k w.chunks))
  own_live w id k = elim (Bool-cases (id_eq id k)) [
    | inl same ↦ rw ((id_eq_iff id k).0 same) refl
    | inr other ↦ rw other refl
  ]

  IsAnswered-then :
      (id : ChunkId) (ids : List ChunkId) (w w1 w2 : Server redis config)
      → IsShown id (peek_chunk config w.outside id w.chunks) w w1
      → IsAnswered ids w1 w2
      → IsAnswered (id ∷ ids) w w2
  IsAnswered-then id ids w w1 w2 first rest =
      let later : shows_all w1.outside w1.chunks ids ≡ shows_all w.outside w.chunks ids =
        rw (first.outside) (shows_all_ext w.outside w.chunks w1.chunks ids first.peeks) in
      record {
        registry = rest.registry;
        sent = rest.sent ∙ rw (first.sent, later) (append_assoc w.sent _ _);
        active = λ k.
            let seen : peek_chunk config w1.outside k w1.chunks
                ≡ peek_chunk config w.outside k w.chunks =
              rw (first.outside) (first.peeks k) in
            let live = is_live (peek_chunk config w.outside k w.chunks) in
            rest.active k
            ∙ ap₂ (λ cells before. in_ids k ids && is_live cells || before) seen
                (first.active k ∙ ap (λ b. b || is_active k w.chunks) (own_live w id k))
            ∙ shown_or (id_eq id k) (in_ids k ids) (is_active k w.chunks) live;
      }

  -- Subscriptions are not part of what is shown.
  resubscribed :
      (id : ChunkId) (cells : List ℕ) (subscribers : Subscribers) (w w' : Server redis config)
      → IsShown id cells (record w { subscribers = subscribers }) w'
      → IsShown id cells w w'
  resubscribed id cells subscribers w w' shown = record {
    registry = shown.registry;
    outside = shown.outside;
    sent = shown.sent;
    peeks = shown.peeks;
    active = shown.active;
  }

  run_subscribe-IsAnswered :
      (client : ℕ) (ids : List ChunkId) (w : Server redis config)
      → IsRegistry w.chunks
      → IsAnswered ids w (run_subscribe redis config client ids w)
  unfolding run_subscribe
  run_subscribe-IsAnswered client [] w r = record {
    registry = r;
    sent = sym (append-nil w.sent);
    active = λ k. refl;
  }
  run_subscribe-IsAnswered client (id ∷ ids) w r =
      let cells = peek_chunk config w.outside id w.chunks in
      let subscribed = record w { subscribers = subscribe id client w.subscribers } in
      let w1 = show_chunk redis config id cells subscribed in
      let first =
        resubscribed id cells subscribed.subscribers w w1
          (show_chunk-IsShown id cells subscribed r) in
      IsAnswered-then id ids w w1 (run_subscribe redis config client ids w1) first
        (run_subscribe-IsAnswered client ids w1 first.registry)

  -- SUBSCRIBE answers with one CHUNK_STATE for each chunk of its list that has a live cell, in the order of the
  -- list, with the cells that PeekChunk shows before the command. Just these chunks become active, if they
  -- were not: a chunk is active afterwards if it was before, or if it is in the list and has a live cell. The
  -- registry, well formed before, stays well formed.
  pub route-subscribe_to :
      (moments : ℕ → Moment) (id : String) (client : ℕ) (ids : List ChunkId)
      (w : Server redis config) (k : ChunkId)
      → IsRegistry w.chunks
      → let after = route redis config moments id client (subscribe_to (some ids)) w in
        (after.sent ≡ w.sent ++ shows_all w.outside w.chunks ids)
        × (is_active k after.chunks ≡ (
            in_ids k ids && is_live (peek_chunk config w.outside k w.chunks)
            || is_active k w.chunks))
        × IsRegistry after.chunks
  unfolding route
  route-subscribe_to moments id client ids w k r =
      let answered = run_subscribe-IsAnswered client ids w r in
      (answered.sent, answered.active k, answered.registry)

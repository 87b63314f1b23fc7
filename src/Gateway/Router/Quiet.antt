-- ===== src/Gateway/Router/Quiet.antt =====
-- What a command does without an effect on the world: charges, refusals and subscriptions.
use distributed_game_of_life.Prelude.{
  ℕ, zero, suc, ◌+◌, ◌≡◌, refl, ◌∙◌, arith, Bool, true, false, ◌||◌, List, [], ◌∷◌, ◌++◌, Option,
  none, some, Bool-cases, inl, inr,
}
use Prim.Native.String.{String}
use distributed_game_of_life.Simulation.Chunk.{ChunkId}
use distributed_game_of_life.Simulation.Engine.Shown.{IsId}
use distributed_game_of_life.Simulation.Registry.{Config, peek_chunk}
use distributed_game_of_life.Simulation.Registry.Invariant.{IsRegistry, rows_in}
use distributed_game_of_life.Simulation.TickAll.Spread.{HasIds}
use distributed_game_of_life.Simulation.TickAll.Growth.{start-IsGrown, get_or_create-IsGrown}
use distributed_game_of_life.Simulation.TickAll.Ticks.{StoresBlank}
use distributed_game_of_life.Gateway.Pubsub.{Subscribers, subscribe, unsubscribe}
use distributed_game_of_life.Ratelimit.{Redis, allow_mutation}
use distributed_game_of_life.Gateway.Router.{
  Reply, spawn_ack, place_shape_ack, place_custom_ack, internal_error, rate_limited, Moment, Server,
  send, judge, check_rate_limit, charge_n, show_chunk, run_subscribe, run_unsubscribe,
}

abbrev pub is_ack : Reply → Bool
is_ack spawn_ack = true
is_ack place_shape_ack = true
is_ack place_custom_ack = true
is_ack _ = false

-- The client has been told that its command was carried out.
abbrev pub acked : List Reply → Bool
acked [] = false
acked (r ∷ rs) = is_ack r || acked rs

swap_or : (a b c : Bool) → (a || (b || c)) ≡ (b || (a || c))
swap_or a b c = ground arith

pub acked-append : (rs : List Reply) (r : Reply) → acked (rs ++ r ∷ []) ≡ (is_ack r || acked rs)
acked-append [] r = ground arith
acked-append (q ∷ rs) r = rw (acked-append rs r) (swap_or (is_ack q) (is_ack r) (acked rs))

-- All of them are 64-bit IDs.
abbrev pub AllIds : List ChunkId → Type 0
AllIds [] = Unit {0}
AllIds (id ∷ ids) = IsId id × AllIds ids

module _ (redis : Redis) (config : Config) where
  -- Nothing has changed in the world, and no acknowledgement was sent.
  pub record IsQuiet (w w' : Server redis config) : Type 0 where
    pub registry : IsRegistry w'.chunks
    pub ids : HasIds w'.chunks
    pub outside : w'.outside ≡ w.outside
    pub rows : (id : ChunkId) → rows_in id w'.chunks ≡ rows_in id w.chunks
    pub acks : acked w'.sent ≡ acked w.sent

  pub IsQuiet-trans : (w w1 w2 : Server redis config) → IsQuiet w w1 → IsQuiet w1 w2 → IsQuiet w w2
  IsQuiet-trans w w1 w2 first rest = record {
    registry = rest.registry;
    ids = rest.ids;
    outside = rest.outside ∙ first.outside;
    rows = λ id. rest.rows id ∙ first.rows id;
    acks = rest.acks ∙ first.acks;
  }

  pub IsQuiet-self : (w : Server redis config) → IsRegistry w.chunks → HasIds w.chunks → IsQuiet w w
  IsQuiet-self w r ids = record {
    registry = r;
    ids = ids;
    outside = refl;
    rows = λ id. refl;
    acks = refl;
  }

  pub send-IsQuiet :
      (reply : Reply) (w : Server redis config)
      → is_ack reply ≡ false
      → IsRegistry w.chunks
      → HasIds w.chunks
      → IsQuiet w (send reply w)
  send-IsQuiet reply w silent r ids = record {
    registry = r;
    ids = ids;
    outside = refl;
    rows = λ id. refl;
    acks = acked-append w.sent reply ∙ rw silent refl;
  }

  judge-IsQuiet :
      (a : Option Bool) (w : Server redis config)
      → IsRegistry w.chunks
      → HasIds w.chunks
      → IsQuiet w (judge redis config a w).1
  unfolding judge
  judge-IsQuiet none w r ids = send-IsQuiet internal_error w refl r ids
  judge-IsQuiet (some false) w r ids = send-IsQuiet rate_limited w refl r ids
  judge-IsQuiet (some true) w r ids = IsQuiet-self w r ids

  -- The buckets are not part of the world.
  pub recharged :
      (buckets : redis.Store) (w w' : Server redis config)
      → IsQuiet (record w { buckets = buckets }) w'
      → IsQuiet w w'
  recharged buckets w w' q = record {
    registry = q.registry;
    ids = q.ids;
    outside = q.outside;
    rows = q.rows;
    acks = q.acks;
  }

  pub check_rate_limit-IsQuiet :
      (t : Moment) (id : String) (w : Server redis config)
      → IsRegistry w.chunks
      → HasIds w.chunks
      → IsQuiet w (check_rate_limit redis config t id w).1
  unfolding check_rate_limit
  check_rate_limit-IsQuiet t id w r ids =
      let asked = allow_mutation redis t.connected w.buckets id t.now in
      recharged asked.1 w _ (judge-IsQuiet asked.0 (record w { buckets = asked.1 }) r ids)

  pub charge_n-IsQuiet :
      (moments : ℕ → Moment) (id : String) (n i : ℕ) (w : Server redis config)
      → IsRegistry w.chunks
      → HasIds w.chunks
      → IsQuiet w (charge_n redis config moments id n i w).1
  unfolding charge_n
  charge_n-IsQuiet moments id zero i w r ids = IsQuiet-self w r ids
  charge_n-IsQuiet moments id (suc n) i w r ids =
      let w1 = (check_rate_limit redis config (moments i) id w).1 in
      let first = check_rate_limit-IsQuiet (moments i) id w r ids in
      elim (Bool-cases (check_rate_limit redis config (moments i) id w).0) [
        | inl ok ↦ rw ok (
            IsQuiet-trans w w1 _ first
              (charge_n-IsQuiet moments id n (i + 1) w1 first.registry first.ids))
        | inr refused ↦ rw refused first
      ]

  show_chunk-IsQuiet :
      (id : ChunkId) (cells : List ℕ) (w : Server redis config)
      → IsId id
      → StoresBlank config w.outside
      → IsRegistry w.chunks
      → HasIds w.chunks
      → IsQuiet w (show_chunk redis config id cells w)
  unfolding show_chunk
  show_chunk-IsQuiet id [] w hid blank r ids = IsQuiet-self w r ids
  show_chunk-IsQuiet id (c ∷ cells) w hid blank r ids =
      let grown =
        get_or_create-IsGrown config w.outside w.chunks w.chunks id (λ k absent. blank k) hid
          (start-IsGrown w.chunks r ids) in
      record {
        registry = grown.registry;
        ids = grown.ids;
        outside = refl;
        rows = grown.same;
        acks = acked-append w.sent _;
      }

  -- Subscriptions are not part of the world.
  resubscribed :
      (subscribers : Subscribers) (w w' : Server redis config)
      → IsQuiet (record w { subscribers = subscribers }) w'
      → IsQuiet w w'
  resubscribed subscribers w w' q = record {
    registry = q.registry;
    ids = q.ids;
    outside = q.outside;
    rows = q.rows;
    acks = q.acks;
  }

  pub run_subscribe-IsQuiet :
      (client : ℕ) (chunks : List ChunkId) (w : Server redis config)
      → AllIds chunks
      → StoresBlank config w.outside
      → IsRegistry w.chunks
      → HasIds w.chunks
      → IsQuiet w (run_subscribe redis config client chunks w)
  unfolding run_subscribe
  run_subscribe-IsQuiet client [] w all blank r ids = IsQuiet-self w r ids
  run_subscribe-IsQuiet client (id ∷ chunks) w all blank r ids =
      let subscribed = record w { subscribers = subscribe id client w.subscribers } in
      let w1 = show_chunk redis config id (peek_chunk config w.outside id w.chunks) subscribed in
      let first = resubscribed subscribed.subscribers w w1 (
        show_chunk-IsQuiet id (peek_chunk config w.outside id w.chunks) subscribed all.0 blank r
          ids) in
      IsQuiet-trans w w1 (run_subscribe redis config client chunks w1) first (
        run_subscribe-IsQuiet client chunks w1 all.1 (rw (first.outside) blank) first.registry
          first.ids)

  pub run_unsubscribe-IsQuiet :
      (client : ℕ) (chunks : List ChunkId) (w : Server redis config)
      → IsRegistry w.chunks
      → HasIds w.chunks
      → IsQuiet w (run_unsubscribe redis config client chunks w)
  unfolding run_unsubscribe
  run_unsubscribe-IsQuiet client [] w r ids = IsQuiet-self w r ids
  run_unsubscribe-IsQuiet client (id ∷ chunks) w r ids =
      resubscribed (unsubscribe id client w.subscribers) w _ (
        run_unsubscribe-IsQuiet client chunks
          (record w { subscribers = unsubscribe id client w.subscribers }) r ids)

-- ===== src/Gateway/Router/Charging.antt =====
-- What chargeN charges, and when it succeeds.
use distributed_game_of_life.Prelude.{
  ℕ, zero, suc, ◌+◌, ◌-◌, ◌≡◌, refl, ap, ◌∙◌, arith, min, Bool, true, false, if◌then◌else◌, ◌&&◌,
  ◌||◌, leb, one_if, Option, some, Bool-cases, inl, inr,
}
use Prim.Native.String.{String}
use distributed_game_of_life.Simulation.Registry.{Config}
use distributed_game_of_life.Ratelimit.{Redis, Key, global, player, key_eq, allow_mutation}
use distributed_game_of_life.Ratelimit.Effects.{tokens_at}
use distributed_game_of_life.Ratelimit.Charges.{allows, key_eq_self, allow_mutation_lem}
use distributed_game_of_life.Gateway.Router.{Moment, Server, judge, check_rate_limit, charge_n}

both_left : (g p : ℕ) → (leb 1 g && leb 1 p) ≡ leb 1 (min g p)
both_left g p = ground arith

one_more : (n p : ℕ) → leb 1 p ≡ true → leb n (p - 1) ≡ leb (suc n) p
one_more n p h = ground arith

none_left : (n p : ℕ) → leb 1 p ≡ false → false ≡ leb (suc n) p
none_left n p h = ground arith

charged_more :
    (n p l : ℕ) (b : Bool)
    → leb 1 p ≡ true
    → (l - one_if b) - (if b then min n (p - 1) else 0) ≡ l - (if b then min (suc n) p else 0)
charged_more n p l b h = ground arith

charged_none :
    (n p l : ℕ) (b : Bool) → leb 1 p ≡ false → l - 0 ≡ l - (if b then min (suc n) p else 0)
charged_none n p l b h = ground arith

module _ (redis : Redis) (config : Config) where
  judged :
      (a : Option Bool) (ok : Bool) (w : Server redis config)
      → a ≡ some ok
      → ((judge redis config a w).0 ≡ ok) × ((judge redis config a w).1.buckets ≡ w.buckets)
  unfolding judge
  judged a true w e = rw (e, judge) (refl, refl)
  judged a false w e = rw (e, judge) (refl, refl)

  module _ (t : Moment) (id : String) (connected : t.connected ≡ true) where
    -- The tokens of a key, and how many cells they and the other bucket's pay for.
    abbrev pub left : Server redis config → Key → ℕ
    left w j = tokens_at redis w.buckets j t.now

    abbrev pub payable : Server redis config → ℕ
    payable w = min (left w global) (left w (player id))

    abbrev pub pays : Key → Bool
    pays j = key_eq (player id) j || key_eq global j

    check_lem :
        (w : Server redis config) (j : Key)
        → ((check_rate_limit redis config t id w).0 ≡ leb 1 (payable w))
          × (left (check_rate_limit redis config t id w).1 j
              ≡ left w j - one_if (leb 1 (payable w) && pays j))
    unfolding check_rate_limit
    check_lem w j =
        let asked = allow_mutation redis t.connected w.buckets id t.now in
        let effect = allow_mutation_lem redis w.buckets id t.now j in
        let answered : asked.0 ≡ some (allows redis w.buckets id t.now) = rw connected effect.0 in
        let test = both_left (left w global) (left w (player id)) in
        let verdict =
          judged asked.0 (allows redis w.buckets id t.now) (record w { buckets = asked.1 })
            answered in
        let charged : tokens_at redis asked.1 j t.now
            ≡ left w j - one_if (allows redis w.buckets id t.now && pays j) =
          rw connected effect.1 in
        (
          verdict.0 ∙ test,
          ap (λ s. tokens_at redis s j t.now) verdict.1
              ∙ charged
              ∙ ap (λ b. left w j - one_if (b && pays j)) test,
        )

    payable_fewer :
        (w : Server redis config)
        → leb 1 (payable w) ≡ true
        → payable (check_rate_limit redis config t id w).1 ≡ payable w - 1
    payable_fewer w enough =
        let shared = rw enough at (check_lem w global).1 in
        let own = rw (enough, key_eq_self (player id)) at (check_lem w (player id)).1 in
        rw (shared, own) (omega arith)

    -- Charging for `n` cells at one moment, with Redis in reach, succeeds exactly when both the global and
    -- the player's bucket have `n` tokens. Both are charged for as many cells as they can pay for, up to
    -- `n`, also when it fails; no other player is charged.
    pub charge_n_lem :
        (n i : ℕ) (w : Server redis config) (j : Key)
        → ((charge_n redis config (λ k. t) id n i w).0 ≡ leb n (payable w))
          × (left (charge_n redis config (λ k. t) id n i w).1 j
              ≡ left w j - (if pays j then min n (payable w) else 0))
    unfolding charge_n
    charge_n_lem zero i w j = (ground arith, ground arith)
    charge_n_lem (suc n) i w j =
        let w1 = (check_rate_limit redis config t id w).1 in
        let rest = charge_n_lem n (i + 1) w1 j in
        let here = check_lem w j in
        elim (Bool-cases (leb 1 (payable w))) [
          | inl enough ↦
              let fewer : payable w1 ≡ payable w - 1 = payable_fewer w enough in
              rw (here.0 ∙ enough) (
                rest.0 ∙ rw fewer (one_more n (payable w) enough),
                rest.1
                    ∙ rw (fewer, rw enough at here.1)
                        (charged_more n (payable w) (left w j) (pays j) enough),
              )
          | inr empty ↦ rw (here.0 ∙ empty) (
            none_left n (payable w) empty,
            (rw empty at here.1) ∙ charged_none n (payable w) (left w j) (pays j) empty,
          )
        ]

-- ===== src/Simulation/Workers/Perms.antt =====
-- Permutations of jobs: the same jobs, each of them once, in another order.
use mathlib.Core.List.{Permᴰ}
use distributed_game_of_life.Prelude.{◌≡◌, refl, sym, ap, ap₂, subst, ◌∙◌, arith, List, ◌∷◌}
use distributed_game_of_life.Simulation.Chunk.{ChunkId}
use distributed_game_of_life.Simulation.ChunkMap.{id_eq_iff, find, has_key, DistinctKeys}

module _ {ℓ} {V : Type ℓ} where
  pub has_key-perm :
      (k : ChunkId) {js ks : List (ChunkId × V)} → Permᴰ js ks → has_key k js ≡ has_key k ks
  unfolding has_key
  has_key-perm k Permᴰ.nil = refl
  has_key-perm k (Permᴰ.cons e p) = rw (e, has_key-perm k p) refl
  has_key-perm k (Permᴰ.swap e f) = rw (e, f) (ground arith)
  has_key-perm k (Permᴰ.trans p q) = has_key-perm k p ∙ has_key-perm k q

  swapped_keys :
      (a b : ChunkId × V) (l : List (ChunkId × V))
      → DistinctKeys (a ∷ b ∷ l)
      → DistinctKeys (b ∷ a ∷ l)
  unfolding has_key
  swapped_keys a b l d = ground (arith, id_eq_iff a.0 b.0, id_eq_iff b.0 a.0)

  swapped_find :
      (k : ChunkId) (a b : ChunkId × V) (l : List (ChunkId × V))
      → DistinctKeys (a ∷ b ∷ l)
      → find k (a ∷ b ∷ l) ≡ find k (b ∷ a ∷ l)
  unfolding find has_key
  swapped_find k a b l d = ground (arith, id_eq_iff a.0 k, id_eq_iff b.0 k, id_eq_iff b.0 a.0)

  pub perm-DistinctKeys :
      {js ks : List (ChunkId × V)} → Permᴰ js ks → DistinctKeys js → DistinctKeys ks
  unfolding has_key
  perm-DistinctKeys Permᴰ.nil d = d
  perm-DistinctKeys (Permᴰ.cons {a} {b} e p) d =
      (sym (has_key-perm b.0 p) ∙ rw e at d.0, perm-DistinctKeys p d.1)
  perm-DistinctKeys (Permᴰ.swap {a} {b} {a'} {b'} {l} e f) d =
      let same = ap₂ (λ (x y : ChunkId × V). x ∷ y ∷ l) e f in
      swapped_keys b' a' l (subst (λ js. DistinctKeys js) same d)
  perm-DistinctKeys (Permᴰ.trans p q) d = perm-DistinctKeys q (perm-DistinctKeys p d)

  pub find-perm :
      (k : ChunkId) {js ks : List (ChunkId × V)}
      → Permᴰ js ks
      → DistinctKeys js
      → find k js ≡ find k ks
  unfolding find has_key
  find-perm k Permᴰ.nil d = refl
  find-perm k (Permᴰ.cons e p) d = rw (e, find-perm k p d.1) refl
  find-perm k (Permᴰ.swap {a} {b} {a'} {b'} {l} e f) d =
      let same = ap₂ (λ (x y : ChunkId × V). x ∷ y ∷ l) e f in
      ap (find k) same ∙ swapped_find k b' a' l (subst (λ js. DistinctKeys js) same d)
  find-perm k (Permᴰ.trans p q) d = find-perm k p d ∙ find-perm k q (perm-DistinctKeys p d)

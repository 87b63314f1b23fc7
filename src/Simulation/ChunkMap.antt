-- ===== src/Simulation/ChunkMap.antt =====
-- Go maps keyed by ChunkID, as lists of entries in the order of an iteration. A lookup takes the first
-- entry with the key, a write replaces it or adds one, and a delete takes every one away.
use distributed_game_of_life.Prelude.{
  ◌≡◌, ◌↔◌, refl, sym, ◌∙◌, inl, inr, Bool-cases, Bool, true, false, ◌&&◌, ◌||◌, if◌then◌else◌,
  Option, none, some, List, [], ◌∷◌, arith,
}
use distributed_game_of_life.Prelude.Int.{eq_ℤ, eq_ℤ_iff}
use distributed_game_of_life.Simulation.Chunk.{ChunkId}

-- == on ChunkID
abbrev pub id_eq : ChunkId → ChunkId → Bool
id_eq a b = eq_ℤ a.x b.x && eq_ℤ a.y b.y

pub id_eq_iff : (a b : ChunkId) → (id_eq a b ≡ true) ↔ (a ≡ b)
id_eq_iff a b = (
  λ h. ground (arith, (eq_ℤ_iff a.x b.x).0, (eq_ℤ_iff a.y b.y).0),
  λ e. rw e (ground (arith, (eq_ℤ_iff b.x b.x).1 refl, (eq_ℤ_iff b.y b.y).1 refl)),
)

module _ {ℓ} {V : Type ℓ} where
  unfoldable pub find : ChunkId → List (ChunkId × V) → Option V
  find k [] = none
  find k ((j, v) ∷ m) = if id_eq j k then some v else find k m

  -- The key has an entry.
  unfoldable pub has_key : ChunkId → List (ChunkId × V) → Bool
  has_key k [] = false
  has_key k ((j, v) ∷ m) = id_eq j k || has_key k m

  -- No key has two entries.
  abbrev pub DistinctKeys : List (ChunkId × V) → Type 0
  DistinctKeys [] = Unit {0}
  DistinctKeys ((j, v) ∷ m) = (has_key j m ≡ false) × DistinctKeys m

  -- m[k] = v
  unfoldable pub put : ChunkId → V → List (ChunkId × V) → List (ChunkId × V)
  put k v [] = (k, v) ∷ []
  put k v ((j, w) ∷ m) = if id_eq j k then (j, v) ∷ m else (j, w) ∷ put k v m

  -- delete(m, k)
  unfoldable pub delete : ChunkId → List (ChunkId × V) → List (ChunkId × V)
  delete k [] = []
  delete k ((j, w) ∷ m) = let rest = delete k m in if id_eq j k then rest else (j, w) ∷ rest

  pub find_absent : (k : ChunkId) (m : List (ChunkId × V)) → has_key k m ≡ false → find k m ≡ none
  unfolding find has_key
  find_absent k [] h = refl
  find_absent k ((j, v) ∷ m) h = ground (arith, find_absent k m)

  -- A deleted key is gone, and no other entry changes.
  pub find-delete :
      (k j : ChunkId) (m : List (ChunkId × V))
      → find j (delete k m) ≡ (if id_eq k j then none else find j m)
  unfolding find delete
  find-delete k j [] = ground arith
  find-delete k j ((i, v) ∷ m) =
      ground (arith, find-delete k j m, id_eq_iff i k, id_eq_iff i j, id_eq_iff k j)

  -- A written key has the value, and no other entry changes.
  pub find-put :
      (k j : ChunkId) (v : V) (m : List (ChunkId × V))
      → find j (put k v m) ≡ (if id_eq k j then some v else find j m)
  unfolding find put
  find-put k j v [] = refl
  find-put k j v ((i, w) ∷ m) =
      ground (arith, find-put k j v m, id_eq_iff i k, id_eq_iff i j, id_eq_iff k j)

  has_key-put :
      (k j : ChunkId) (v : V) (m : List (ChunkId × V))
      → has_key j (put k v m) ≡ (id_eq k j || has_key j m)
  unfolding has_key put
  has_key-put k j v [] = refl
  has_key-put k j v ((i, w) ∷ m) =
      ground (arith, has_key-put k j v m, id_eq_iff i k, id_eq_iff i j, id_eq_iff k j)

  pub put-DistinctKeys :
      (k : ChunkId) (v : V) (m : List (ChunkId × V)) → DistinctKeys m → DistinctKeys (put k v m)
  unfolding put has_key
  put-DistinctKeys k v [] d = (refl, tt)
  put-DistinctKeys k v ((i, w) ∷ m) d =
      ground (arith, has_key-put k i v m, put-DistinctKeys k v m d.1, id_eq_iff i k, id_eq_iff k i)

  has_key-delete :
      (k j : ChunkId) (m : List (ChunkId × V))
      → has_key j m ≡ false
      → has_key j (delete k m) ≡ false
  unfolding has_key delete
  has_key-delete k j [] h = refl
  has_key-delete k j ((i, w) ∷ m) h = ground (arith, has_key-delete k j m)

  pub delete-DistinctKeys :
      (k : ChunkId) (m : List (ChunkId × V)) → DistinctKeys m → DistinctKeys (delete k m)
  unfolding delete
  delete-DistinctKeys k [] d = tt
  delete-DistinctKeys k ((i, w) ∷ m) d =
      ground (arith, has_key-delete k i m, delete-DistinctKeys k m d.1)

  pub find_first : (k : ChunkId) (v : V) (m : List (ChunkId × V)) → find k ((k, v) ∷ m) ≡ some v
  unfolding find
  find_first k v m = rw ((id_eq_iff k k).1 refl) refl

  -- What is found in the rest of a list with distinct keys is found in the list.
  pub find_later :
      (k j : ChunkId) (v w : V) (m : List (ChunkId × V))
      → DistinctKeys ((j, v) ∷ m)
      → find k m ≡ some w
      → find k ((j, v) ∷ m) ≡ some w
  unfolding find
  find_later k j v w m d later = elim (Bool-cases (id_eq j k)) [
    | inl same ↦
        let gone = find_absent k m (rw ((id_eq_iff j k).0 same) at d.0) in
        absurd (cc (sym gone ∙ later))
    | inr other ↦ rw other later
  ]

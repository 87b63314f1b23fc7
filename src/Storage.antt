-- ===== src/Storage.antt =====
-- storage/redis.go: chunks in Redis as JSON. The Redis client and Go's encoding/json are a parameter: a
-- store under the chunks' IDs, and a text for each value. Storage.Keys has chunkKey, and makes such a store
-- of one with texts for keys.
pub mod Keys
use distributed_game_of_life.Prelude.{
  ℕ, ◌≡◌, refl, ap, sym, ◌∙◌, if◌then◌else◌, List, Option, none, some, Bool-cases, Option-cases,
  inl, inr,
}
use mathlib.Core.Option.{some-injective}
use distributed_game_of_life.Prelude.Int.{ℤ}
use distributed_game_of_life.Simulation.Chunk.{
  ChunkId, Rows, Chunk, ChunkAlias, new_chunk, set_rows, offsets_to_rows, marshal_alias, snapshot,
}
use distributed_game_of_life.Simulation.Chunk.Cells.{IsValid, no_rows-IsValid}
use distributed_game_of_life.Simulation.Chunk.Offsets.{
  offsets_to_rows_lem, offsets_to_rows-rows_to_offsets,
}
use distributed_game_of_life.Simulation.ChunkMap.{id_eq, id_eq_iff}

-- The Alias of LoadChunk: the fields of a ChunkAlias that it reads.
pub record LoadAlias : Type 0 where
  pub x : ℤ
  pub y : ℤ
  pub cells : List ℕ

-- The answer to a GET: a value, redis.Nil, or another error.
pub data Reply (A : Type 0) : Type 0 where
  found : A → Reply A
  missing failed : Reply A

pub record Backend : Type 1 where
  pub Data : Type 0
  pub Store : Type 0
  pub marshal : ChunkAlias → Option Data
  pub unmarshal : Data → Option LoadAlias
  pub get : Store → ChunkId → Reply Data
  pub set : Store → ChunkId → Data → Option Store
  pub unmarshal-marshal :
      (a : ChunkAlias) (d : Data)
      → marshal a ≡ some d
      → unmarshal d ≡ some (record { x = a.x; y = a.y; cells = a.cells })
  pub get-set :
      (s t : Store) (id j : ChunkId) (d : Data)
      → set s id d ≡ some t
      → get t j ≡ (if id_eq id j then found d else get s j)

-- The end of LoadChunk: a chunk with the cells of the list.
unfoldable pub rebuild : LoadAlias → Chunk
unfolding new_chunk set_rows offsets_to_rows
rebuild a = set_rows (new_chunk a.x a.y) (offsets_to_rows a.cells)

module _ (backend : Backend) where
  open backend use {Data, Store, marshal, unmarshal, get, set, unmarshal-marshal, get-set}

  unfoldable pub save_data : Store → ChunkId → Option Data → Option Store
  save_data s id none = none
  save_data s id (some d) = set s id d

  -- SaveChunk: `none` is an error.
  unfoldable pub save_chunk : Store → Chunk → Option Store
  unfolding marshal_alias save_data
  save_chunk s c = save_data s c.id (marshal (marshal_alias c))

  unfoldable pub rebuild_parsed : Option LoadAlias → Option Chunk
  unfolding rebuild
  rebuild_parsed none = none
  rebuild_parsed (some alias) = some (rebuild alias)

  unfoldable pub load_reply : ChunkId → Reply Data → Option Chunk
  unfolding rebuild_parsed new_chunk
  load_reply id (found d) = rebuild_parsed (unmarshal d)
  load_reply id missing = some (new_chunk id.x id.y)
  load_reply id failed = none

  -- LoadChunk: `none` is an error.
  unfoldable pub load_chunk : Store → ChunkId → Option Chunk
  unfolding load_reply
  load_chunk s id = load_reply id (get s id)

rebuild-IsValid : (a : LoadAlias) → IsValid (rebuild a).rows
unfolding rebuild set_rows
rebuild-IsValid a = (offsets_to_rows_lem a.cells).0

rebuild-snapshot :
    (c : Chunk)
    → IsValid c.rows
    → rebuild (record { x = c.id.x; y = c.id.y; cells = snapshot c }) ≡ c
unfolding rebuild set_rows new_chunk snapshot
rebuild-snapshot c v =
    ap (λ (rows : Rows). record { id = c.id; rows = rows })
      (offsets_to_rows-rows_to_offsets c.rows v)

module _ (backend : Backend) where
  open backend use {Data, Store, marshal, unmarshal, get, set, unmarshal-marshal, get-set}

  load_reply-IsValid :
      (id : ChunkId) (r : Reply Data) (c : Chunk)
      → load_reply backend id r ≡ some c
      → IsValid c.rows
  unfolding load_reply new_chunk rebuild_parsed
  load_reply-IsValid id (found d) c loaded = elim (Option-cases (unmarshal d)) [
    | inl bad ↦ absurd (cc (rw bad at loaded))
    | inr (alias, parsed) ↦
        let same : some (rebuild alias) ≡ some c = rw parsed at loaded in
        rw (sym (some-injective (rebuild alias) c same)) (rebuild-IsValid alias)
  ]
  load_reply-IsValid id missing c loaded =
      rw (sym (some-injective (new_chunk id.x id.y) c loaded)) no_rows-IsValid
  load_reply-IsValid id failed c loaded = absurd (cc loaded)

  -- Whatever is stored, a chunk that LoadChunk returns is valid.
  pub load_chunk-IsValid :
      (s : Store) (id : ChunkId) (c : Chunk) → load_chunk backend s id ≡ some c → IsValid c.rows
  unfolding load_chunk
  load_chunk-IsValid s id c loaded = load_reply-IsValid id (get s id) c loaded

  save_data-found :
      (s t : Store) (c : Chunk) (o : Option Data)
      → save_data backend s c.id o ≡ some t
      → (d : Data) × (o ≡ some d) × (set s c.id d ≡ some t)
  unfolding save_data
  save_data-found s t c none saved = absurd (cc saved)
  save_data-found s t c (some d) saved = (d, refl, saved)

  -- After SaveChunk has succeeded, LoadChunk finds that very chunk under its ID, and under any other ID
  -- what it found before.
  pub load_chunk-save_chunk :
      (s t : Store) (c : Chunk) (j : ChunkId)
      → IsValid c.rows
      → save_chunk backend s c ≡ some t
      → load_chunk backend t j ≡ (if id_eq c.id j then some c else load_chunk backend s j)
  unfolding save_chunk load_chunk load_reply marshal_alias rebuild_parsed
  load_chunk-save_chunk s t c j v saved =
      let stored = save_data-found s t c (marshal (marshal_alias c)) saved in
      let parsed = unmarshal-marshal (marshal_alias c) stored.0 stored.1 in
      rw (get-set s t c.id j stored.0 stored.2) (elim (Bool-cases (id_eq c.id j)) [
        | inl own ↦ rw (own, parsed) (ap some (rebuild-snapshot c v))
        | inr other ↦ rw other refl
      ])

  -- What is stored under a chunk's key has the chunk's ID.
  abbrev pub IsFaithful : Store → Type 0
  IsFaithful s = (id : ChunkId) (c : Chunk) → load_chunk backend s id ≡ some c → c.id ≡ id

  -- SaveChunk stores each chunk under its own key.
  pub save_chunk-IsFaithful :
      (s t : Store) (c : Chunk) → save_chunk backend s c ≡ some t → IsFaithful s → IsFaithful t
  unfolding save_chunk load_chunk load_reply marshal_alias rebuild_parsed rebuild set_rows new_chunk
  save_chunk-IsFaithful s t c saved faithful j d loads =
      let stored = save_data-found s t c (marshal (marshal_alias c)) saved in
      let parsed = unmarshal-marshal (marshal_alias c) stored.0 stored.1 in
      let here = rw (get-set s t c.id j stored.0 stored.2) at loads in
      elim (Bool-cases (id_eq c.id j)) [
        | inl own ↦
            let made = some-injective _ d (rw (own, parsed) at here) in
            ap (λ (e : Chunk). e.id) (sym made) ∙ (id_eq_iff c.id j).0 own
        | inr other ↦ faithful j d (rw other at here)
      ]

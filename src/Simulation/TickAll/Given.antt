-- ===== src/Simulation/TickAll/Given.antt =====
-- Which halos the loop over the entries gives to whom.
use distributed_game_of_life.Prelude.{
  ℕ, zero, suc, ◌≡◌, inl, inr, refl, ap, ◌∙◌, arith, Bool, true, false, ◌&&◌, ◌||◌, get_or,
  if◌then◌else◌, List, [], ◌∷◌, Option, none, some, Bool-cases,
}
use distributed_game_of_life.Prelude.Int.{ℤ}
use distributed_game_of_life.Words.Bits.{test_bit-zero}
use distributed_game_of_life.Simulation.Chunk.{ChunkId, Rows}
use distributed_game_of_life.Simulation.Chunk.Cells.{cell}
use distributed_game_of_life.Simulation.ChunkMap.{
  id_eq, id_eq_iff, find, has_key, put, find-put, find_absent, DistinctKeys,
}
use distributed_game_of_life.Simulation.Engine.{Halos, has_cells_near_edge}
use distributed_game_of_life.Simulation.Engine.Edge.{has_cells_near_edge_lem}
use distributed_game_of_life.Simulation.Registry.{ChunkState, Chunks, Config}
use distributed_game_of_life.Simulation.TickAll.{
  snapshot_rows, neighbour_offsets, all_zero, HalosByChunk, halos_of, give_halo, shifted, visit,
  visit_all, distribute,
}

abbrev pub rows_option : Option ChunkState → Option Rows
rows_option none = none
rows_option (some state) = some state.chunk.rows

pub find-snapshot_rows :
    (k : ChunkId) (m : Chunks) → find k (snapshot_rows m) ≡ rows_option (find k m)
unfolding find snapshot_rows
find-snapshot_rows k [] = refl
find-snapshot_rows k ((id, state) ∷ m) = elim (Bool-cases (id_eq id k)) [
  | inl same ↦ rw same refl
  | inr other ↦ rw other (find-snapshot_rows k m)
]

has_key-snapshot_rows : (k : ChunkId) (m : Chunks) → has_key k (snapshot_rows m) ≡ has_key k m
unfolding has_key snapshot_rows
has_key-snapshot_rows k [] = refl
has_key-snapshot_rows k ((id, state) ∷ m) = ap (◌||◌ (id_eq id k)) (has_key-snapshot_rows k m)

pub snapshot_rows-DistinctKeys : (m : Chunks) → DistinctKeys m → DistinctKeys (snapshot_rows m)
unfolding snapshot_rows
snapshot_rows-DistinctKeys [] d = tt
snapshot_rows-DistinctKeys ((id, state) ∷ m) d =
    (has_key-snapshot_rows id m ∙ d.0, snapshot_rows-DistinctKeys m d.1)

-- A halo that is given is found by the chunk and under the key that it was given for.
pub halos_of-give_halo :
    (nid eid n : ChunkId) (rows : Rows) (given : HalosByChunk)
    → halos_of n (give_halo nid eid rows given)
      ≡ (if id_eq nid n then put eid rows (halos_of nid given) else halos_of n given)
unfolding halos_of give_halo
halos_of-give_halo nid eid n rows given =
    rw (find-put nid n (put eid rows (halos_of nid given)) given)
      (elim (Bool-cases (id_eq nid n)) [ inl same ↦ rw same refl | inr other ↦ rw other refl ])

pub find-give_halo :
    (nid eid n e : ChunkId) (rows : Rows) (given : HalosByChunk)
    → find e (halos_of n (give_halo nid eid rows given))
      ≡ (if id_eq nid n && id_eq eid e then some rows else find e (halos_of n given))
find-give_halo nid eid n e rows given =
    rw (halos_of-give_halo nid eid n rows given) (elim (Bool-cases (id_eq nid n)) [
      | inl same ↦
          rw (same, find-put eid e rows (halos_of nid given), (id_eq_iff nid n).0 same) refl
      | inr other ↦ rw other refl
    ])

-- One of the offsets leads from the entry to the chunk, and the entry has cells near that edge.
unfoldable pub gives : List (ℤ × ℤ) → ChunkId → Rows → ChunkId → Bool
gives [] eid rows n = false
gives ((dx, dy) ∷ offs) eid rows n =
    has_cells_near_edge rows dx dy && id_eq (shifted eid dx dy) n || gives offs eid rows n

module _ (config : Config) where
  open config use {Outside}

  find-visit :
      (o : Outside) (eid n e : ChunkId) (rows : Rows) (dx dy : ℤ) (s : Chunks × HalosByChunk)
      → find e (halos_of n (visit config o eid rows (dx, dy) s).1) ≡ (
          if has_cells_near_edge rows dx dy && id_eq (shifted eid dx dy) n && id_eq eid e
          then some rows
          else find e (halos_of n s.1))
  unfolding visit
  find-visit o eid n e rows dx dy s = elim (Bool-cases (has_cells_near_edge rows dx dy)) [
    | inl near ↦ rw near (find-give_halo (shifted eid dx dy) eid n e rows s.1)
    | inr far ↦ rw far refl
  ]

  find-visit_all :
      (o : Outside) (eid n e : ChunkId) (rows : Rows) (offs : List (ℤ × ℤ))
      (s : Chunks × HalosByChunk)
      → find e (halos_of n (visit_all config o eid rows offs s).1)
        ≡ (if gives offs eid rows n && id_eq eid e then some rows else find e (halos_of n s.1))
  unfolding visit_all gives
  find-visit_all o eid n e rows [] s = refl
  find-visit_all o eid n e rows ((dx, dy) ∷ offs) s =
      find-visit_all o eid n e rows offs (visit config o eid rows (dx, dy) s)
      ∙ rw (find-visit o eid n e rows dx dy s) (ground arith)

get_or-all_zero : (rows : Rows) (y : ℕ) → all_zero rows ≡ true → get_or rows y 0 ≡ 0
unfolding all_zero
get_or-all_zero [] y h = refl
get_or-all_zero (row ∷ rows) zero h = ground arith
get_or-all_zero (row ∷ rows) (suc y) h = get_or-all_zero rows y (ground arith)

pub cell-all_zero : (rows : Rows) (x y : ℕ) → all_zero rows ≡ true → cell rows x y ≡ false
unfolding cell
cell-all_zero rows x y h = rw (get_or-all_zero rows y h) (test_bit-zero x)

pub gives-all_zero :
    (offs : List (ℤ × ℤ)) (eid : ChunkId) (rows : Rows) (n : ChunkId)
    → all_zero rows ≡ true
    → gives offs eid rows n ≡ false
unfolding gives
gives-all_zero [] eid rows n h = refl
gives-all_zero ((dx, dy) ∷ offs) eid rows n h =
    let far = (has_cells_near_edge_lem rows dx dy).1 (λ x y _ _. cell-all_zero rows x y h) in
    rw far (gives-all_zero offs eid rows n h)

abbrev pub given_by : ChunkId → ChunkId → Option Rows → Option Rows → Option Rows
given_by n e none before = before
given_by n e (some rows) before = if gives neighbour_offsets e rows n then some rows else before

module _ (config : Config) where
  open config use {Outside}

  find-visit_entry :
      (o : Outside) (eid n e : ChunkId) (rows : Rows) (s : Chunks × HalosByChunk)
      → find e (
          halos_of n
            (if all_zero rows then s else visit_all config o eid rows neighbour_offsets s).1)
        ≡ (if gives neighbour_offsets eid rows n && id_eq eid e
            then some rows
            else find e (halos_of n s.1))
  find-visit_entry o eid n e rows s = elim (Bool-cases (all_zero rows)) [
    | inl blank ↦ rw (blank, gives-all_zero neighbour_offsets eid rows n blank) refl
    | inr live ↦ rw live (find-visit_all config o eid n e rows neighbour_offsets s)
  ]

  -- After the loop over the entries, a chunk has the halo of each entry that gives it one.
  pub find-distribute :
      (o : Outside) (n e : ChunkId) (entries : Halos) (s : Chunks × HalosByChunk)
      → DistinctKeys entries
      → find e (halos_of n (distribute config o entries s).1)
        ≡ given_by n e (find e entries) (find e (halos_of n s.1))
  unfolding distribute find
  find-distribute o n e [] s d = refl
  find-distribute o n e ((eid, rows) ∷ entries) s d =
      let s1 = if all_zero rows then s else visit_all config o eid rows neighbour_offsets s in
      find-distribute o n e entries s1 d.1
      ∙ rw (find-visit_entry o eid n e rows s) (elim (Bool-cases (id_eq eid e)) [
        | inl same ↦
            let last : find e entries ≡ none =
              find_absent e entries (rw ((id_eq_iff eid e).0 same) at d.0) in
            rw (same, last, (id_eq_iff eid e).0 same) (ground arith)
        | inr other ↦ rw other (ground arith)
      ])

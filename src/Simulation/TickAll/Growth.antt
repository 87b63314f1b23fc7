-- ===== src/Simulation/TickAll/Growth.antt =====
-- The loop over the entries keeps what Spread states.
use distributed_game_of_life.Prelude.{
  ◌≡◌, inl, inr, refl, sym, true, false, ◌&&◌, List, [], ◌∷◌, none, some, Bool-cases, Option-cases,
}
use distributed_game_of_life.Prelude.Int.{ℤ, pos, negsuc, eq_ℤ, add64-IsInt64}
use distributed_game_of_life.Simulation.Chunk.{ChunkId, Rows, Chunk, no_rows}
use distributed_game_of_life.Simulation.Chunk.Cells.{IsValid}
use distributed_game_of_life.Simulation.ChunkMap.{
  id_eq, id_eq_iff, find, find_first, find_later, DistinctKeys, put-DistinctKeys,
}
use distributed_game_of_life.Simulation.Engine.{Halos, has_cells_near_edge}
use distributed_game_of_life.Simulation.Engine.Shown.{IsStep, IsId}
use distributed_game_of_life.Simulation.Registry.{
  ChunkState, Chunks, Config, hydrated, get_or_create,
}
use distributed_game_of_life.Simulation.Registry.Invariant.{
  IsRegistry, rows_of, rows_in, state_or, get_or_create_lem,
}
use distributed_game_of_life.Simulation.TickAll.{
  snapshot_rows, neighbour_offsets, all_zero, HalosByChunk, halos_of, give_halo, shifted, visit,
  visit_all, distribute, distributed,
}
use distributed_game_of_life.Simulation.TickAll.Given.{halos_of-give_halo, find-give_halo}
use distributed_game_of_life.Simulation.TickAll.Spread.{
  HasIds, IsGrown, AreGiven, IsOffsetPair, none_before, put-AreHalos, shifted-IsNeighbour,
}

-- An entry of the snapshot: the ID and the valid rows of an active chunk.
abbrev IsEntry : ChunkId → Rows → Type 0
IsEntry eid rows = IsId eid × IsValid rows

abbrev AllEntries : Halos → Type 0
AllEntries [] = Unit {0}
AllEntries ((eid, rows) ∷ entries) = IsEntry eid rows × AllEntries entries

abbrev AllOffsets : List (ℤ × ℤ) → Type 0
AllOffsets [] = Unit {0}
AllOffsets (off ∷ offs) = IsOffsetPair off × AllOffsets offs

-- A chunk that is woken looks as it did before.
woken_rows :
    (m m' : Chunks) (id : ChunkId) (c : Chunk)
    → (find id m ≡ none → c.rows ≡ no_rows)
    → IsGrown m m'
    → (state_or c (find id m')).chunk.rows ≡ rows_of (find id m)
unfolding rows_in
woken_rows m m' id c blank g = elim (Option-cases (find id m')) [
  | inl absent ↦ let before = none_before m m' id g absent in rw (absent, before) (blank before)
  | inr (state, there) ↦ rw there (rw there at (g.same id))
]

way :
    (dx dy : ℤ)
    → IsStep dx
    → IsStep dy
    → (eq_ℤ dx (pos 0) && eq_ℤ dy (pos 0)) ≡ false
    → IsOffsetPair (dx, dy)
way dx dy sx sy apart = record { step_x = sx; step_y = sy; apart = apart }

neighbour_offsets-all : AllOffsets neighbour_offsets
unfolding neighbour_offsets
neighbour_offsets-all =
    let back : IsStep (negsuc 0) = inl refl in
    let none_at_all : IsStep (pos 0) = inr (inl refl) in
    let forth : IsStep (pos 1) = inr (inr refl) in
    (
      way (negsuc 0) (negsuc 0) back back refl,
      (
        way (pos 0) (negsuc 0) none_at_all back refl,
        (
          way (pos 1) (negsuc 0) forth back refl,
          (
            way (negsuc 0) (pos 0) back none_at_all refl,
            (
              way (pos 1) (pos 0) forth none_at_all refl,
              (
                way (negsuc 0) (pos 1) back forth refl,
                (
                  way (pos 0) (pos 1) none_at_all forth refl,
                  (way (pos 1) (pos 1) forth forth refl, tt),
                ),
              ),
            ),
          ),
        ),
      ),
    )

snapshot_rows-AllEntries :
    (m : Chunks)
    → DistinctKeys m
    → ((k : ChunkId) (state : ChunkState) → find k m ≡ some state → IsEntry k state.chunk.rows)
    → AllEntries (snapshot_rows m)
unfolding snapshot_rows
snapshot_rows-AllEntries [] d ok = tt
snapshot_rows-AllEntries ((id, state) ∷ m) d ok = (
  ok id state (find_first id state m),
  snapshot_rows-AllEntries m d.1 (λ k st e. ok k st (find_later k id state st m d e)),
)

-- Nothing has happened yet.
pub start-IsGrown : (m : Chunks) → IsRegistry m → HasIds m → IsGrown m m
start-IsGrown m r ids = record { registry = r; ids = ids; keeps = λ k state e. e; same = λ k. refl }

start-AreGiven : (m : Chunks) → AreGiven m []
unfolding halos_of find
start-AreGiven m = record {
  around = λ n. tt;
  distinct = λ n. tt;
  awake = λ n e rows found. absurd (cc found);
}

module _ (config : Config) where
  open config use {Outside, load}

  -- The chunks that are not active would be loaded as blank.
  abbrev pub LoadsBlank : Outside → Chunks → Type 0
  LoadsBlank o m = (k : ChunkId) → find k m ≡ none → (hydrated k (load o k)).rows ≡ no_rows

  pub get_or_create-IsGrown :
      (o : Outside) (m m' : Chunks) (id : ChunkId)
      → LoadsBlank o m
      → IsId id
      → IsGrown m m'
      → IsGrown m (get_or_create config o id m')
  unfolding rows_in
  get_or_create-IsGrown o m m' id blank hid g =
      let c = hydrated id (load o id) in
      let at = λ (j : ChunkId). (get_or_create_lem config o id j m' g.registry).1 in
      record {
        registry = (get_or_create_lem config o id id m' g.registry).0;
        ids = λ k state e. elim (Bool-cases (id_eq id k)) [
          | inl same ↦ rw (sym ((id_eq_iff id k).0 same)) hid
          | inr other ↦ g.ids k state (rw (at k, other) at e)
        ];
        keeps = λ k state e. elim (Bool-cases (id_eq id k)) [
          | inl same ↦ rw (at k, same, (id_eq_iff id k).0 same, g.keeps k state e) refl
          | inr other ↦ rw (at k, other) (g.keeps k state e)
        ];
        same = λ k. elim (Bool-cases (id_eq id k)) [
          | inl same ↦
              rw (at k, same, sym ((id_eq_iff id k).0 same)) (woken_rows m m' id c (blank id) g)
          | inr other ↦ rw (at k, other) (g.same k)
        ];
      }

  still_awake :
      (o : Outside) (m : Chunks) (id n : ChunkId) (state : ChunkState)
      → IsRegistry m
      → find n m ≡ some state
      → (after : ChunkState) × (find n (get_or_create config o id m) ≡ some after)
  still_awake o m id n state r there =
      let at = (get_or_create_lem config o id n m r).1 in
      elim (Bool-cases (id_eq id n)) [
        | inl same ↦ (state_or (hydrated id (load o id)) (find id m), rw (at, same) refl)
        | inr other ↦ (state, rw (at, other) there)
      ]

  now_awake :
      (o : Outside) (m : Chunks) (id n : ChunkId)
      → IsRegistry m
      → id_eq id n ≡ true
      → (after : ChunkState) × (find n (get_or_create config o id m) ≡ some after)
  now_awake o m id n r same =
      let at = (get_or_create_lem config o id n m r).1 in
      (state_or (hydrated id (load o id)) (find id m), rw (at, same) refl)

  give_halo-AreGiven :
      (o : Outside) (m : Chunks) (given : HalosByChunk) (eid : ChunkId) (rows : Rows) (dx dy : ℤ)
      → IsEntry eid rows
      → IsOffsetPair (dx, dy)
      → IsRegistry m
      → AreGiven m given
      → AreGiven
          (get_or_create config o (shifted eid dx dy) m)
          (give_halo (shifted eid dx dy) eid rows given)
  give_halo-AreGiven o m given eid rows dx dy entry off r a =
      let nid = shifted eid dx dy in
      let at = λ (n : ChunkId). halos_of-give_halo nid eid n rows given in
      record {
        around = λ n. elim (Bool-cases (id_eq nid n)) [
          | inl same ↦
              rw (at n, same, sym ((id_eq_iff nid n).0 same))
                (put-AreHalos nid eid rows (halos_of nid given)
                  (shifted-IsNeighbour eid dx dy entry.0 off) entry.1 (a.around nid))
          | inr other ↦ rw (at n, other) (a.around n)
        ];
        distinct = λ n. elim (Bool-cases (id_eq nid n)) [
          | inl same ↦
              rw (at n, same) (put-DistinctKeys eid rows (halos_of nid given) (a.distinct nid))
          | inr other ↦ rw (at n, other) (a.distinct n)
        ];
        awake = λ n e halo found. elim (Bool-cases (id_eq nid n)) [
          | inl same ↦ now_awake o m nid n r same
          | inr other ↦
              let old =
                a.awake n e halo (rw (find-give_halo nid eid n e rows given, other) at found) in
              still_awake o m nid n old.0 r old.1
        ];
      }

  -- The chunks and the halos so far.
  pub record IsSpread (m : Chunks) (s : Chunks × HalosByChunk) : Type 0 where
    pub grown : IsGrown m s.0
    pub given : AreGiven s.0 s.1

  module _ (o : Outside) (m : Chunks) (blank : LoadsBlank o m) where
    visit-IsSpread :
        (eid : ChunkId) (rows : Rows) (dx dy : ℤ) (s : Chunks × HalosByChunk)
        → IsEntry eid rows
        → IsOffsetPair (dx, dy)
        → IsSpread m s
        → IsSpread m (visit config o eid rows (dx, dy) s)
    unfolding visit
    visit-IsSpread eid rows dx dy s entry off sp =
        elim (Bool-cases (has_cells_near_edge rows dx dy)) [
          | inl near ↦
              let hid : IsId (shifted eid dx dy) =
                (add64-IsInt64 eid.x dx, add64-IsInt64 eid.y dy) in
              rw near (record {
                grown = get_or_create-IsGrown o m s.0 (shifted eid dx dy) blank hid sp.grown;
                given =
                    give_halo-AreGiven o s.0 s.1 eid rows dx dy entry off sp.grown.registry
                      sp.given;
              })
          | inr far ↦ rw far sp
        ]

    visit_all-IsSpread :
        (eid : ChunkId) (rows : Rows) (offs : List (ℤ × ℤ)) (s : Chunks × HalosByChunk)
        → IsEntry eid rows
        → AllOffsets offs
        → IsSpread m s
        → IsSpread m (visit_all config o eid rows offs s)
    unfolding visit_all
    visit_all-IsSpread eid rows [] s entry all sp = sp
    visit_all-IsSpread eid rows ((dx, dy) ∷ offs) s entry all sp =
        visit_all-IsSpread eid rows offs (visit config o eid rows (dx, dy) s) entry all.1
          (visit-IsSpread eid rows dx dy s entry all.0 sp)

    distribute-IsSpread :
        (entries : Halos) (s : Chunks × HalosByChunk)
        → AllEntries entries
        → IsSpread m s
        → IsSpread m (distribute config o entries s)
    unfolding distribute
    distribute-IsSpread [] s all sp = sp
    distribute-IsSpread ((eid, rows) ∷ entries) s all sp =
        let near = visit_all-IsSpread eid rows neighbour_offsets s all.0 neighbour_offsets-all sp in
        elim (Bool-cases (all_zero rows)) [
          | inl skipped ↦ rw skipped (distribute-IsSpread entries s all.1 sp)
          | inr live ↦ rw live (distribute-IsSpread entries _ all.1 near)
        ]

    -- What TickAll has prepared when it hands out the jobs.
    pub distributed-IsSpread : IsRegistry m → HasIds m → IsSpread m (distributed config o m)
    unfolding distributed
    distributed-IsSpread r ids =
        distribute-IsSpread (snapshot_rows m) (m, [])
          (snapshot_rows-AllEntries m r.distinct
            (λ k state e. (ids k state e, (r.states k state e).valid)))
          (record { grown = start-IsGrown m r ids; given = start-AreGiven m })

-- ===== src/Tests/Registry.antt =====
-- Tests of the model of simulation/registry.go: one active chunk, nothing in storage, nobody watching.
use distributed_game_of_life.Prelude.{
  ℕ, ◌+◌, ◌≡◌, refl, sym, arith, false, ◌&&◌, ◌||◌, ◌==◌, [], ◌∷◌, some, inl, inr, Bool-cases,
}
use mathlib.Core.Option.{some-injective}
use distributed_game_of_life.Prelude.Int.{pos, negsuc}
use distributed_game_of_life.Simulation.Chunk.{
  ChunkId, Rows, Chunk, offsets_to_rows, rows_to_offsets,
}
use distributed_game_of_life.Simulation.Chunk.Cells.{cell, IsValid}
use distributed_game_of_life.Simulation.Chunk.Offsets.{offsets_to_rows_lem}
use distributed_game_of_life.Simulation.ChunkMap.{id_eq, id_eq_iff, find, has_key}
use distributed_game_of_life.Simulation.Registry.{
  ChunkState, Chunks, Config, loaded, nothing, get_or_create, spawn_cell, peek_chunk,
}
use distributed_game_of_life.Simulation.Registry.Invariant.{IsState, IsRegistry, rows_in}
use distributed_game_of_life.Simulation.Registry.Spawns.{spawn_cell_lem, peek_chunk-get_or_create}

pub never_loaded-id : (id : ChunkId) (c : Chunk) → nothing ≡ loaded c → c.id ≡ id
never_loaded-id id c e = absurd (cc e)

pub never_loaded-IsValid : (c : Chunk) → nothing ≡ loaded c → IsValid c.rows
never_loaded-IsValid c e = absurd (cc e)

abbrev pub alone : Config
alone = record {
  Outside = ℕ;
  load = λ o id. nothing;
  persist = λ o c. o + 1;
  has_subscribers = λ o id. false;
  on_tick = λ o id cells. o;
  load-id = λ o id c e. never_loaded-id id c e;
  load-IsValid = λ o id c e. never_loaded-IsValid c e;
}

abbrev pub near_origin : ChunkId
near_origin = record { x = pos 0; y = negsuc 0 }

abbrev pub elsewhere : ChunkId
elsewhere = record { x = pos 7; y = pos 0 }

unfoldable pub row_of_three : Rows
row_of_three = offsets_to_rows (129 ∷ 130 ∷ 131 ∷ [])

pub row_of_three-IsValid : IsValid row_of_three
unfolding row_of_three
row_of_three-IsValid = (offsets_to_rows_lem (129 ∷ 130 ∷ 131 ∷ [])).0

abbrev pub three : ChunkState
three = record { chunk = record { id = near_origin; rows = row_of_three }; idle_ticks = 99 }

abbrev pub active : Chunks
active = (near_origin, three) ∷ []

three-IsState : (k : ChunkId) (state : ChunkState) → find k active ≡ some state → IsState k state
unfolding find
three-IsState k state e = elim (Bool-cases (id_eq near_origin k)) [
  | inl same ↦
      let it : some three ≡ some state = rw (find, same) at e in
      rw (sym (some-injective three state it), sym ((id_eq_iff near_origin k).0 same))
        (record { same_id = refl; valid = row_of_three-IsValid; patient = omega arith })
  | inr other ↦ absurd (cc (rw (find, other) at e))
]

pub active-IsRegistry : IsRegistry active
unfolding has_key
active-IsRegistry = record { distinct = (refl, tt); states = three-IsState }

spawn_cell_lem_example :
    IsRegistry (spawn_cell alone 0 elsewhere 5 6 active)
    × (cell (rows_in elsewhere (spawn_cell alone 0 elsewhere 5 6 active)) 5 6 ≡ (
        id_eq elsewhere elsewhere && 5 == 5 && 6 == 6
        || cell (rows_in elsewhere (get_or_create alone 0 elsewhere active)) 5 6))
spawn_cell_lem_example =
    spawn_cell_lem alone 0 elsewhere elsewhere 5 6 5 6 active refl active-IsRegistry

peek_chunk-get_or_create_example :
    peek_chunk alone 0 near_origin active
    ≡ rows_to_offsets (rows_in near_origin (get_or_create alone 0 near_origin active))
peek_chunk-get_or_create_example =
    peek_chunk-get_or_create alone 0 near_origin active active-IsRegistry

pub active-found : find near_origin active ≡ some three
unfolding find
active-found = refl

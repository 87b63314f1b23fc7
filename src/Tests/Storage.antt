-- ===== src/Tests/Storage.antt =====
-- Tests of the model of storage/: a store that is a function, in which every value has a text.
use distributed_game_of_life.Prelude.{ℕ, List, ◌≡◌, refl, ap, sym, if◌then◌else◌, [], ◌∷◌, some}
use mathlib.Core.Option.{some-injective}
use distributed_game_of_life.Prelude.Int.{pos, negsuc}
use distributed_game_of_life.Simulation.Chunk.{
  ChunkId, Chunk, ChunkAlias, marshal_alias, offsets_to_rows, raise_bit,
}
use distributed_game_of_life.Simulation.Chunk.Cells.{IsValid}
use distributed_game_of_life.Simulation.Chunk.Offsets.{offsets_to_rows_lem}
use distributed_game_of_life.Simulation.ChunkMap.{id_eq}
use distributed_game_of_life.Storage.Keys.{
  chunk_key, text_eq, text_eq-chunk_key, TextBackend, backend_of,
}
use Prim.Native.Char.{code}
use Prim.Native.String.{String}
use distributed_game_of_life.Storage.{
  Backend, LoadAlias, Reply, found, missing, save_chunk, load_chunk, load_chunk-save_chunk,
}

abbrev pub Values : Type 0
Values = ChunkId → Reply LoadAlias

abbrev pub written : Values → ChunkId → LoadAlias → Values
written s id d j = if id_eq id j then found d else s j

abbrev pub loaded_fields : ChunkAlias → LoadAlias
loaded_fields a = record { x = a.x; y = a.y; cells = a.cells }

abbrev pub values : Backend
values = record {
  Data = LoadAlias;
  Store = Values;
  marshal = λ a. some (loaded_fields a);
  unmarshal = λ d. some d;
  get = λ s id. s id;
  set = λ s id d. some (written s id d);
  unmarshal-marshal = λ a d e. sym e;
  get-set = λ s t id j d e. ap (λ (u : Values). u j) (sym (some-injective (written s id d) t e));
}

abbrev pub nothing_stored : Values
nothing_stored id = missing

abbrev saved_id : ChunkId
saved_id = record { x = pos 2; y = negsuc 0 }

unfoldable saved : Chunk
saved = record { id = saved_id; rows = offsets_to_rows (1 ∷ 65 ∷ 129 ∷ []) }

saved-IsValid : IsValid saved.rows
unfolding saved
saved-IsValid = (offsets_to_rows_lem (1 ∷ 65 ∷ 129 ∷ [])).0

abbrev after_saving : Values
after_saving =
    written nothing_stored saved_id (record { x = pos 2; y = negsuc 0; cells = 1 ∷ 65 ∷ 129 ∷ [] })

saves : save_chunk values nothing_stored saved ≡ some after_saving
unfolding save_chunk saved offsets_to_rows raise_bit
saves = refl

load_chunk-save_chunk_example :
    load_chunk values after_saving saved_id
    ≡ (if id_eq saved.id saved_id then some saved else load_chunk values nothing_stored saved_id)
load_chunk-save_chunk_example =
    load_chunk-save_chunk values nothing_stored after_saving saved saved_id saved-IsValid saves

loads : load_chunk values after_saving saved_id ≡ some saved
unfolding load_chunk saved
loads = refl

abbrev far_west : ChunkId
far_west = record { x = negsuc 11; y = pos 305 }

abbrev codes : String → List ℕ
codes String.[] = []
codes (String.◌∷◌ c s) = code c ∷ codes s

key_of_far_west : chunk_key far_west ≡ codes "chunk:-12:305"
unfolding chunk_key
key_of_far_west = refl

text_eq-chunk_key_example :
    text_eq (chunk_key far_west) (chunk_key saved_id) ≡ id_eq far_west saved_id
text_eq-chunk_key_example = text_eq-chunk_key far_west saved_id

-- A store with texts for keys.
abbrev texts : TextBackend
texts = record {
  Data = LoadAlias;
  Store = List ℕ → Reply LoadAlias;
  marshal = λ a. some (loaded_fields a);
  unmarshal = λ d. some d;
  get = λ s k. s k;
  set = λ s k d. some (λ j. if text_eq k j then found d else s j);
  unmarshal-marshal = λ a d e. sym e;
  get-set = λ s t k j d e. ap (λ (u : List ℕ → Reply LoadAlias). u j) (sym (some-injective _ t e));
}

reads_back :
    load_chunk
      (backend_of texts)
      (λ k.
        if text_eq (codes "chunk:2:-1") k
        then found (loaded_fields (marshal_alias saved))
        else missing)
      saved_id
    ≡ some saved
unfolding load_chunk saved chunk_key marshal_alias raise_bit
reads_back = refl

-- ===== src/Gateway/Router/Positions.antt =====
-- Where an absolute position lies: the cell of the chunk that worldToChunkLocal finds.
use distributed_game_of_life.Prelude.{
  ℕ, ◌≡◌, ◌<◌, ◌==◌, ap, ap₂, ◌∙◌, arith, Bool, false, ◌&&◌, ◌||◌, List, [], ◌∷◌,
}
use distributed_game_of_life.Prelude.Int.{ℤ, pos, negsuc, eq_ℤ, IsInt64, ◌+ℤ◌, ◌*ℤ◌}
use distributed_game_of_life.Simulation.Chunk.{ChunkId}
use distributed_game_of_life.Simulation.ChunkMap.{id_eq}
use distributed_game_of_life.Simulation.Engine.Shown.{IsId}
use distributed_game_of_life.Gateway.Coordinates.{world_to_chunk_local, world_to_chunk_local_lem}

-- The absolute coordinate of the cell at `local` of the chunk `chunk`.
unfoldable pub absolute : ℤ → ℕ → ℤ
unfolding ◌+ℤ◌ ◌*ℤ◌
absolute chunk local = pos 64 *ℤ chunk +ℤ pos local

-- The cell of the chunk is the one at the position.
abbrev pub lies_at : ℤ × ℤ → ChunkId → ℕ → ℕ → Bool
lies_at (wx, wy) id x y = eq_ℤ (absolute id.x x) wx && eq_ℤ (absolute id.y y) wy

-- The cell is at one of the positions.
abbrev pub painted : List (ℤ × ℤ) → ChunkId → ℕ → ℕ → Bool
painted [] id x y = false
painted (p ∷ ps) id x y = lies_at p id x y || painted ps id x y

absolute-injective :
    (c d : ℤ) (l x : ℕ)
    → l < 64
    → x < 64
    → (eq_ℤ c d && l == x) ≡ eq_ℤ (absolute d x) (absolute c l)
unfolding absolute
absolute-injective (pos c) (pos d) l x hl hx = ground arith
absolute-injective (pos c) (negsuc d) l x hl hx = ground arith
absolute-injective (negsuc c) (pos d) l x hl hx = ground arith
absolute-injective (negsuc c) (negsuc d) l x hl hx = ground arith

world_to_chunk_local-IsInt64 : (z : ℤ) → IsInt64 z → IsInt64 (world_to_chunk_local z).0
unfolding world_to_chunk_local
world_to_chunk_local-IsInt64 (pos n) h = ground arith
world_to_chunk_local-IsInt64 (negsuc n) h = ground arith

-- The chunk and the cell in it that spawnWorldCell finds for a position.
abbrev pub chunk_at : ℤ × ℤ → ChunkId
chunk_at (wx, wy) = record { x = (world_to_chunk_local wx).0; y = (world_to_chunk_local wy).0 }

pub chunk_at-IsId : (p : ℤ × ℤ) → IsInt64 p.0 → IsInt64 p.1 → IsId (chunk_at p)
chunk_at-IsId (wx, wy) hx hy =
    (world_to_chunk_local-IsInt64 wx hx, world_to_chunk_local-IsInt64 wy hy)

and_swap : (a b c d : Bool) → (a && b && c && d) ≡ ((a && c) && (b && d))
and_swap a b c d = ground arith

one_coordinate :
    (w c : ℤ) (x : ℕ)
    → IsInt64 w
    → x < 64
    → (eq_ℤ (world_to_chunk_local w).0 c && (world_to_chunk_local w).1 == x) ≡ eq_ℤ (absolute c x) w
unfolding absolute
one_coordinate w c x h hx =
    let at = world_to_chunk_local_lem w h in
    absolute-injective (world_to_chunk_local w).0 c (world_to_chunk_local w).1 x at.0 hx
    ∙ ap (eq_ℤ (absolute c x)) at.1

pub local-lt : (w : ℤ) → IsInt64 w → (world_to_chunk_local w).1 < 64
local-lt w h = (world_to_chunk_local_lem w h).0

-- That cell is the one that lies at the position.
pub chunk_at-lies_at :
    (p : ℤ × ℤ) (id : ChunkId) (x y : ℕ)
    → IsInt64 p.0
    → IsInt64 p.1
    → x < 64
    → y < 64
    → (id_eq (chunk_at p) id
        && (world_to_chunk_local p.0).1 == x
        && (world_to_chunk_local p.1).1 == y)
      ≡ lies_at p id x y
chunk_at-lies_at (wx, wy) id x y px py hx hy =
    and_swap (eq_ℤ (world_to_chunk_local wx).0 id.x) (eq_ℤ (world_to_chunk_local wy).0 id.y)
      ((world_to_chunk_local wx).1 == x) ((world_to_chunk_local wy).1 == y)
    ∙ ap₂ ◌&&◌ (one_coordinate wx id.x x px hx) (one_coordinate wy id.y y py hy)

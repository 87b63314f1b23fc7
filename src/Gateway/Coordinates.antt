-- ===== src/Gateway/Coordinates.antt =====
-- worldToChunkLocal of gateway/router.go: absolute cell coordinates to a chunk and a cell in it. Go's `/`
-- and `%` truncate towards zero. `abs / 64` and what follows cannot leave int64.
use distributed_game_of_life.Prelude.{
  ℕ, ◌+◌, ◌*◌, ◌/◌, ◌%◌, ◌^◌, ◌≡◌, ◌<◌, ◌&&◌, not, arith, if◌then◌else◌,
}
use distributed_game_of_life.Prelude.Int.{
  ℤ, pos, negsuc, sub_ℕ, ltb_ℤ, eq_ℤ, add64, sub64, IsInt64, ◌+ℤ◌, ◌*ℤ◌,
}
use distributed_game_of_life.Simulation.Chunk.{chunk_size}

-- Go's / and % by a positive number, on integers.
unfoldable pub quot : ℤ → ℕ → ℤ
quot (pos n) d = pos (n / d)
quot (negsuc n) d = sub_ℕ 0 ((n + 1) / d)

unfoldable pub rem : ℤ → ℕ → ℤ
rem (pos n) d = pos (n % d)
rem (negsuc n) d = sub_ℕ 0 ((n + 1) % d)

-- uint8(z)
unfoldable pub to_u8 : ℤ → ℕ
to_u8 (pos n) = n % 2 ^ 8
to_u8 (negsuc n) = 255 * (n + 1) % 2 ^ 8

unfoldable pub world_to_chunk_local : ℤ → ℤ × ℕ
unfolding quot rem to_u8 add64 sub64
world_to_chunk_local abs =
    let chunk = quot abs chunk_size in
    let r = rem abs chunk_size in
    if ltb_ℤ abs (pos 0) && not (eq_ℤ r (pos 0))
    then (sub64 chunk (pos 1), to_u8 (add64 r (pos chunk_size)))
    else (chunk, to_u8 r)

-- The local coordinate is below 64, and the cell lies there in the chunk: the coordinate is
-- 64 * chunk + local, for negative coordinates too.
pub world_to_chunk_local_lem :
    (abs : ℤ)
    → IsInt64 abs
    → ((world_to_chunk_local abs).1 < 64)
      × (pos chunk_size *ℤ (world_to_chunk_local abs).0 +ℤ pos (world_to_chunk_local abs).1 ≡ abs)
unfolding world_to_chunk_local ◌+ℤ◌ ◌*ℤ◌
world_to_chunk_local_lem (pos n) h = ground arith
world_to_chunk_local_lem (negsuc n) h = ground arith

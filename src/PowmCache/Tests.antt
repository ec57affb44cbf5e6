-- ===== src/PowmCache/Tests.antt =====
-- The witnesses of the theorems about code/pepper/crypto/powm_cache.cpp.
use ginger_zaatar_allspice.Prelude.{◌<◌, max, ◌≡◌, ◌*◌, ◌^◌, ◌%◌, refl, some, arith}
use ginger_zaatar_allspice.Prelude.Int.{pos}
use ginger_zaatar_allspice.Gmp.Reference.{reference}
use ginger_zaatar_allspice.PowmCache.{get_num_chunks, make_cache, extend_cache, get_item}
use ginger_zaatar_allspice.PowmCache.Powers.{get_item-make_cache}
use ginger_zaatar_allspice.PowmCache.Extend.{get_item-extend_cache}

chunks_lem : get_num_chunks 4 2 ≡ 2
unfolding get_num_chunks
chunks_lem = refl

get_item-make_cache_example :
    get_item (make_cache reference (pos 3) (pos 97) 4 2) 1 2
    ≡ some (pos (3 ^ (3 * 2 ^ (2 * 1)) % 97))
get_item-make_cache_example =
    get_item-make_cache reference 96 3 4 2 1 2 (omega arith) (omega arith)
      (omega (arith, chunks_lem)) (omega arith)

more_chunks : 3 < max (get_num_chunks 4 2) (get_num_chunks 8 2)
unfolding get_num_chunks
more_chunks = omega arith

get_item-extend_cache_example :
    get_item (extend_cache reference (make_cache reference (pos 3) (pos 97) 4 2) 8) 3 1
    ≡ some (pos (3 ^ (2 * 2 ^ (2 * 3)) % 97))
get_item-extend_cache_example =
    get_item-extend_cache reference 96 3 4 8 2 3 1 (omega arith) (omega arith) more_chunks
      (omega arith)

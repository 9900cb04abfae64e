-- ===== src/Routing/Hash.antt =====
-- internal/routing/engine.go: `hashPercent`, over the 64-bit FNV-1a hash of the standard library.
use Prim.Native.Nat.{bit_xor}
use mathlib.Core.List.{foldl}
use outcome_router.Base.{ℕ, ◌*◌, ◌%◌, ◌^◌, ◌<◌, ◌≡◌, refl, String, List, arith, codes, encode}
use outcome_router.Base.Int.{pos}
use outcome_router.Double.{Double, ◌⊘◌}

abbrev fnv_offset : ℕ
fnv_offset = 14695981039346656037

abbrev fnv_prime : ℕ
fnv_prime = 1099511628211

fnv_step : ℕ → ℕ → ℕ
fnv_step h byte = bit_xor h byte * fnv_prime % 2 ^ 64

fnv64a : List ℕ → ℕ
unfolding fnv_step
fnv64a = foldl fnv_step fnv_offset

-- The hash in steps of a ten-thousandth of a percent.
unfoldable pub hash_millionths : String → ℕ
unfolding fnv64a
hash_millionths value = fnv64a (encode (codes value)) % 1_000_000

unfoldable pub hash_percent : {F : Type 0} ⦃d : Double F⦄ → String → F
hash_percent ⦃d⦄ value = d.of_int (pos (hash_millionths value)) ⊘ d.decimal 10_000 0

pub hash_millionths_lt : (value : String) → hash_millionths value < 1_000_000
unfolding hash_millionths
hash_millionths_lt value = omega arith

-- The published test vector of FNV-1a for the text "foobar".
foobar : fnv64a (encode (codes "foobar")) ≡ 0x85944171f73967e8
unfolding fnv64a
foobar = refl

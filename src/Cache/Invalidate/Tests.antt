-- ===== src/Cache/Invalidate/Tests.antt =====
-- The metadata of CacheInvalidateMetadata on the wire, at one value.
use nnrp_rs.Base.{ℕ, ◌≡◌, refl, List, [], ◌∷◌, replicate}
use nnrp_rs.Error.{ok}
use nnrp_rs.Enums.CacheInvalidateScope
use nnrp_rs.Enums.CacheInvalidateScope.{CacheInvalidateScope}
use nnrp_rs.Wire.Little.{IsByte}
use nnrp_rs.Cache.Invalidate.{CacheInvalidateMetadata, parse, write, copy_fields, read_fields}

abbrev example : CacheInvalidateMetadata
example = record {
  invalidate_scope = CacheInvalidateScope.object_key;
  cache_namespace = 514;
  cache_key_hi = 3;
  cache_key_lo = 260;
  reason_code = 517;
}

abbrev example_bytes : List ℕ
example_bytes =
    3 ∷ 0 ∷ 0 ∷ 0 ∷ 2 ∷ 2 ∷ 0 ∷ 0 ∷ 3 ∷ 0 ∷ 0 ∷ 0 ∷ 0 ∷ 0 ∷ 0 ∷ 0 ∷ 4 ∷ 1 ∷ 0 ∷ 0 ∷ 0 ∷ 0 ∷ 0 ∷ 0
    ∷ 5 ∷ 2 ∷ 0 ∷ 0 ∷ 0 ∷ 0 ∷ 0 ∷ 0 ∷ []

example_written : write example (replicate 32 0xff) ≡ ok example_bytes
unfolding write copy_fields nnrp_rs.Cache.Invalidate.validate_scope_fields
    CacheInvalidateScope.as_u32
example_written = refl

example_parsed : parse example_bytes ≡ ok example
unfolding parse read_fields nnrp_rs.Wire.read_u32 nnrp_rs.Wire.Little.from_le
    CacheInvalidateScope.try_from_u32 nnrp_rs.Cache.Invalidate.validate_scope_fields
    nnrp_rs.Wire.read_u64
example_parsed = refl

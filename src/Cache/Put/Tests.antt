-- ===== src/Cache/Put/Tests.antt =====
-- The metadata of CachePutMetadata on the wire, at one value.
use nnrp_rs.Base.{ℕ, ◌≡◌, refl, List, [], ◌∷◌, replicate}
use nnrp_rs.Error.{ok}
use nnrp_rs.Enums.CacheObjectKind
use nnrp_rs.Enums.CacheObjectKind.{CacheObjectKind}
use nnrp_rs.Wire.Little.{IsByte}
use nnrp_rs.Cache.Put.{CachePutMetadata, parse, write, copy_fields, read_fields}

abbrev example : CachePutMetadata
example = record {
  cache_namespace = 514;
  cache_key_hi = 3;
  cache_key_lo = 260;
  object_kind = CacheObjectKind.camera_block;
  ttl_ms = 517;
  object_bytes = 6;
  codec_bitmap = 263;
  flags = 1;
}

abbrev example_bytes : List ℕ
example_bytes =
    2 ∷ 2 ∷ 0 ∷ 0 ∷ 1 ∷ 0 ∷ 0 ∷ 0 ∷ 3 ∷ 0 ∷ 0 ∷ 0 ∷ 0 ∷ 0 ∷ 0 ∷ 0 ∷ 4 ∷ 1 ∷ 0 ∷ 0 ∷ 0 ∷ 0 ∷ 0 ∷ 0
    ∷ 5 ∷ 2 ∷ 0 ∷ 0 ∷ 6 ∷ 0 ∷ 0 ∷ 0 ∷ 7 ∷ 1 ∷ 0 ∷ 0 ∷ 1 ∷ 0 ∷ 0 ∷ 0 ∷ []

example_written : write example (replicate 40 0xff) ≡ ok example_bytes
unfolding write copy_fields nnrp_rs.Wire.validate_mask CacheObjectKind.as_u32
example_written = refl

example_parsed : parse example_bytes ≡ ok example
unfolding parse read_fields nnrp_rs.Wire.validate_mask nnrp_rs.Wire.read_u32
    nnrp_rs.Wire.Little.from_le CacheObjectKind.try_from_u32 nnrp_rs.Wire.read_u64
example_parsed = refl

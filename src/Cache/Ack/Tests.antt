-- ===== src/Cache/Ack/Tests.antt =====
-- The metadata of CacheAckMetadata on the wire, at one value.
use nnrp_rs.Base.{ℕ, ◌≡◌, refl, List, [], ◌∷◌, replicate}
use nnrp_rs.Error.{ok}
use nnrp_rs.Enums.CacheAckStatus
use nnrp_rs.Enums.CacheAckStatus.{CacheAckStatus}
use nnrp_rs.Wire.Little.{IsByte}
use nnrp_rs.Cache.Ack.{CacheAckMetadata, parse, write, copy_fields, read_fields}

abbrev example : CacheAckMetadata
example = record {
  cache_namespace = 514;
  cache_key_hi = 3;
  cache_key_lo = 260;
  status = CacheAckStatus.accepted;
  accepted_ttl_ms = 517;
  max_object_bytes = 6;
  detail_code = 263;
}

abbrev example_bytes : List ℕ
example_bytes =
    2 ∷ 2 ∷ 0 ∷ 0 ∷ 0 ∷ 0 ∷ 0 ∷ 0 ∷ 3 ∷ 0 ∷ 0 ∷ 0 ∷ 0 ∷ 0 ∷ 0 ∷ 0 ∷ 4 ∷ 1 ∷ 0 ∷ 0 ∷ 0 ∷ 0 ∷ 0 ∷ 0
    ∷ 5 ∷ 2 ∷ 0 ∷ 0 ∷ 6 ∷ 0 ∷ 0 ∷ 0 ∷ 7 ∷ 1 ∷ 0 ∷ 0 ∷ 0 ∷ 0 ∷ 0 ∷ 0 ∷ []

example_written : write example (replicate 40 0xff) ≡ ok example_bytes
unfolding write copy_fields CacheAckStatus.as_u32
example_written = refl

example_parsed : parse example_bytes ≡ ok example
unfolding parse read_fields nnrp_rs.Wire.read_u32 nnrp_rs.Wire.Little.from_le
    CacheAckStatus.try_from_u32 nnrp_rs.Wire.read_u64
example_parsed = refl

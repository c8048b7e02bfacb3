-- ===== src/Cache/Ack.antt =====
-- crates/nnrp-core/src/cache.rs: the metadata of CACHE_ACK.
pub mod RoundTrip
mod Tests
use nnrp_rs.Base.{ℕ, ◌≡◌, ◌≤◌, List, [], ◌∷◌, ◌++◌, replicate, length}
use nnrp_rs.Error.{Result, ok, err, ◌>>=◌, ◌>>◌, reject_if}
use nnrp_rs.Enums.CacheAckStatus
use nnrp_rs.Enums.CacheAckStatus.{CacheAckStatus}
use nnrp_rs.Wire.{
  Write, writes, write_u8, write_u16, write_u32, write_u64, read_u16, read_u32, read_u64,
  require_len, require_destination_len, validate_zero, validate_mask, require_declared_len,
  split_declared_tail,
}
use nnrp_rs.Wire.Buffer.{byte_at}

abbrev pub metadata_len : ℕ
metadata_len = 40

pub record CacheAckMetadata : Type 0 where
  pub cache_namespace : ℕ
  pub cache_key_hi : ℕ
  pub cache_key_lo : ℕ
  pub status : CacheAckStatus
  pub accepted_ttl_ms : ℕ
  pub max_object_bytes : ℕ
  pub detail_code : ℕ

-- The literal that `parse` ends with.
pub read_fields : List ℕ → CacheAckStatus → CacheAckMetadata
read_fields source status = record {
  cache_namespace = read_u32 source 0;
  cache_key_hi = read_u64 source 8;
  cache_key_lo = read_u64 source 16;
  status = status;
  accepted_ttl_ms = read_u32 source 24;
  max_object_bytes = read_u32 source 28;
  detail_code = read_u32 source 32;
}

pub parse : List ℕ → Result CacheAckMetadata
parse source = do
  require_len source metadata_len
  validate_zero "cache_ack.reserved" (read_u32 source 36)
  status ← CacheAckStatus.try_from_u32 (read_u32 source 4)
  ok (read_fields source status)

-- The writes of `write`, in order.
field_writes : CacheAckMetadata → List Write
field_writes m =
    (0, replicate metadata_len 0)
    ∷ write_u32 0 m.cache_namespace
    ∷ write_u32 4 (CacheAckStatus.as_u32 m.status)
    ∷ write_u64 8 m.cache_key_hi
    ∷ write_u64 16 m.cache_key_lo
    ∷ write_u32 24 m.accepted_ttl_ms
    ∷ write_u32 28 m.max_object_bytes
    ∷ write_u32 32 m.detail_code
    ∷ []

copy_fields : CacheAckMetadata → List ℕ → List ℕ
unfolding field_writes
copy_fields m destination = writes (field_writes m) destination

-- The buffer after the call, where it succeeds.
pub write : CacheAckMetadata → List ℕ → Result (List ℕ)
write m destination = do
  require_destination_len destination metadata_len
  ok (copy_fields m destination)

pub to_bytes : CacheAckMetadata → Result (List ℕ)
unfolding write copy_fields
to_bytes m = write m (replicate metadata_len 0)

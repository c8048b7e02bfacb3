-- ===== src/Cache/Put.antt =====
-- crates/nnrp-core/src/cache.rs: the metadata of CACHE_PUT.
pub mod RoundTrip
mod Tests
use nnrp_rs.Base.{ℕ, ◌≡◌, ◌≤◌, List, [], ◌∷◌, ◌++◌, replicate, length}
use nnrp_rs.Error.{Result, ok, err, ◌>>=◌, ◌>>◌, reject_if}
use nnrp_rs.Enums.CacheObjectKind
use nnrp_rs.Enums.CacheObjectKind.{CacheObjectKind}
use nnrp_rs.Wire.{
  Write, writes, write_u8, write_u16, write_u32, write_u64, read_u16, read_u32, read_u64,
  require_len, require_destination_len, validate_zero, validate_mask, require_declared_len,
  split_declared_tail,
}
use nnrp_rs.Wire.Buffer.{byte_at}

abbrev pub metadata_len : ℕ
metadata_len = 40

abbrev pub flags_known_mask : ℕ
flags_known_mask = 0x3

pub record CachePutMetadata : Type 0 where
  pub cache_namespace : ℕ
  pub cache_key_hi : ℕ
  pub cache_key_lo : ℕ
  pub object_kind : CacheObjectKind
  pub ttl_ms : ℕ
  pub object_bytes : ℕ
  pub codec_bitmap : ℕ
  pub flags : ℕ

-- The literal that `parse` ends with.
pub read_fields : List ℕ → CacheObjectKind → CachePutMetadata
read_fields source object_kind = record {
  cache_namespace = read_u32 source 0;
  cache_key_hi = read_u64 source 8;
  cache_key_lo = read_u64 source 16;
  object_kind = object_kind;
  ttl_ms = read_u32 source 24;
  object_bytes = read_u32 source 28;
  codec_bitmap = read_u32 source 32;
  flags = read_u32 source 36;
}

pub parse : List ℕ → Result CachePutMetadata
parse source = do
  require_len source metadata_len
  validate_mask 32 (read_u32 source 36) flags_known_mask
  object_kind ← CacheObjectKind.try_from_u32 (read_u32 source 4)
  ok (read_fields source object_kind)

-- The writes of `write`, in order.
field_writes : CachePutMetadata → List Write
field_writes m =
    write_u32 0 m.cache_namespace
    ∷ write_u32 4 (CacheObjectKind.as_u32 m.object_kind)
    ∷ write_u64 8 m.cache_key_hi
    ∷ write_u64 16 m.cache_key_lo
    ∷ write_u32 24 m.ttl_ms
    ∷ write_u32 28 m.object_bytes
    ∷ write_u32 32 m.codec_bitmap
    ∷ write_u32 36 m.flags
    ∷ []

copy_fields : CachePutMetadata → List ℕ → List ℕ
unfolding field_writes
copy_fields m destination = writes (field_writes m) destination

-- The buffer after the call, where it succeeds.
pub write : CachePutMetadata → List ℕ → Result (List ℕ)
write m destination = do
  require_destination_len destination metadata_len
  validate_mask 32 m.flags flags_known_mask
  ok (copy_fields m destination)

pub to_bytes : CachePutMetadata → Result (List ℕ)
unfolding write copy_fields
to_bytes m = write m (replicate metadata_len 0)

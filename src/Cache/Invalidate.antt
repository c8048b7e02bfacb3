-- ===== src/Cache/Invalidate.antt =====
-- crates/nnrp-core/src/cache.rs: the metadata of CACHE_INVALIDATE.
pub mod RoundTrip
mod Tests
use nnrp_rs.Base.{ℕ, Bool, true, List, [], ◌∷◌, replicate, not, ◌==◌, leb, ◌&&◌}
use nnrp_rs.Error.{Result, ok, ◌>>=◌, ◌>>◌, reject_if, invalid_protocol_combination}
use nnrp_rs.Enums.CacheInvalidateScope
use nnrp_rs.Enums.CacheInvalidateScope.{CacheInvalidateScope}
use nnrp_rs.Wire.{
  Write, writes, write_u32, write_u64, read_u32, read_u64, require_len, require_destination_len,
  validate_zero,
}

abbrev pub metadata_len : ℕ
metadata_len = 32

pub record CacheInvalidateMetadata : Type 0 where
  pub invalidate_scope : CacheInvalidateScope
  pub cache_namespace : ℕ
  pub cache_key_hi : ℕ
  pub cache_key_lo : ℕ
  pub reason_code : ℕ

-- The literal of `parse`.
pub read_fields : List ℕ → CacheInvalidateScope → CacheInvalidateMetadata
read_fields source invalidate_scope = record {
  invalidate_scope = invalidate_scope;
  cache_namespace = read_u32 source 4;
  cache_key_hi = read_u64 source 8;
  cache_key_lo = read_u64 source 16;
  reason_code = read_u32 source 24;
}

-- The `match` of `validate_scope_fields`.
has_scope_fields : CacheInvalidateScope → CacheInvalidateMetadata → Bool
has_scope_fields CacheInvalidateScope.whole_session m =
    (m.cache_namespace == 0) && (m.cache_key_hi == 0) && (m.cache_key_lo == 0)
has_scope_fields CacheInvalidateScope.namespace m = (m.cache_key_hi == 0) && (m.cache_key_lo == 0)
has_scope_fields CacheInvalidateScope.object_kind m =
    leb m.cache_key_hi 0xffffffff && (m.cache_key_lo == 0)
has_scope_fields CacheInvalidateScope.object_key m = true

pub validate_scope_fields : CacheInvalidateMetadata → Result (Unit {0})
unfolding has_scope_fields
validate_scope_fields m =
    reject_if (not (has_scope_fields m.invalidate_scope m))
      (invalid_protocol_combination "cache invalidate identity fields must match invalidate_scope")

pub parse : List ℕ → Result CacheInvalidateMetadata
parse source = do
  require_len source metadata_len
  validate_zero "cache_invalidate.reserved" (read_u32 source 28)
  invalidate_scope ← CacheInvalidateScope.try_from_u32 (read_u32 source 0)
  validate_scope_fields (read_fields source invalidate_scope)
  ok (read_fields source invalidate_scope)

-- The writes of `write`, in order.
field_writes : CacheInvalidateMetadata → List Write
field_writes m =
    (0, replicate metadata_len 0)
    ∷ write_u32 0 (CacheInvalidateScope.as_u32 m.invalidate_scope)
    ∷ write_u32 4 m.cache_namespace
    ∷ write_u64 8 m.cache_key_hi
    ∷ write_u64 16 m.cache_key_lo
    ∷ write_u32 24 m.reason_code
    ∷ []

copy_fields : CacheInvalidateMetadata → List ℕ → List ℕ
unfolding field_writes
copy_fields m destination = writes (field_writes m) destination

-- The buffer after the call, where it succeeds.
pub write : CacheInvalidateMetadata → List ℕ → Result (List ℕ)
write m destination = do
  require_destination_len destination metadata_len
  validate_scope_fields m
  ok (copy_fields m destination)

pub to_bytes : CacheInvalidateMetadata → Result (List ℕ)
unfolding write copy_fields
to_bytes m = write m (replicate metadata_len 0)

-- ===== src/Cache/Dependencies/Tests.antt =====
-- Runs of the rules on cached objects on concrete values.
use nnrp_rs.Base.{
  ℕ, List, [], ◌∷◌, ◌+◌, ◌-◌, ◌<◌, ◌^◌, ◌≡◌, ◌↔◌, ◌⊎◌, refl, arith, All, true, false,
}
use nnrp_rs.Outcome.{ok, err}
use nnrp_rs.Enums.CacheObjectKind
use nnrp_rs.Enums.CacheInvalidateScope
use nnrp_rs.Cache.Invalidate.{CacheInvalidateMetadata}
use nnrp_rs.Cache.Objects.{CacheObjectId, IsAbout, matches_invalidate, matches_invalidate_iff}
use nnrp_rs.Cache.Leases.{
  CacheLease, CacheLeaseOwnerScope, dependency_invalid, validate_live_at, validate_live_at_iff,
}
use nnrp_rs.Cache.Dependencies.{
  CacheDependency, CacheDependencyState, IsMet, IsDistinct, validate_cache_dependencies,
  validate_cache_dependencies_lem,
}

abbrev object : ℕ → CacheObjectId
object key = record {
  cache_namespace = 1;
  cache_key_hi = 0;
  cache_key_lo = key;
  object_kind = CacheObjectKind.tool_schema;
}

abbrev states : List CacheDependencyState
states =
    record { object_id = object 5; current_version = 2; invalidated = false }
    ∷ record { object_id = object 6; current_version = 3; invalidated = true }
    ∷ []

abbrev needs : ℕ → ℕ → List CacheDependency
needs key version = record { object_id = object key; required_version = version } ∷ []

met : validate_cache_dependencies (needs 5 2) states ≡ ok tt
unfolding validate_cache_dependencies nnrp_rs.Cache.Objects.id_eq CacheObjectKind.as_u32
met = refl

invalidated_object : validate_cache_dependencies (needs 6 3) states ≡ err dependency_invalid
unfolding validate_cache_dependencies nnrp_rs.Cache.Objects.id_eq CacheObjectKind.as_u32
invalidated_object = refl

unknown_object : validate_cache_dependencies (needs 7 1) states ≡ err dependency_invalid
unfolding validate_cache_dependencies nnrp_rs.Cache.Objects.id_eq
unknown_object = refl

states-IsDistinct : IsDistinct states
states-IsDistinct = ground arith

validate_cache_dependencies_lem_example :
    ((validate_cache_dependencies (needs 5 2) states ≡ ok tt) × All (IsMet states) (needs 5 2))
    ⊎ ((validate_cache_dependencies (needs 5 2) states ≡ err dependency_invalid)
        × (¬ All (IsMet states) (needs 5 2)))
validate_cache_dependencies_lem_example =
    validate_cache_dependencies_lem (needs 5 2) states states-IsDistinct

abbrev lease : CacheLease
lease = record {
  object_id = object 5;
  object_version = 2;
  lease_id = 1;
  owner_scope = CacheLeaseOwnerScope.session;
  owner_id = 7;
  granted_at_ms = 2 ^ 64 - 5;
  ttl_ms = 10;
}

lease_near_overflow :
    (validate_live_at lease (2 ^ 64 - 2) ≡ ok tt)
    ↔ ((2 ^ 64 - 2 < lease.granted_at_ms + lease.ttl_ms) × (2 ^ 64 - 2 < 2 ^ 64 - 1))
lease_near_overflow = validate_live_at_iff lease (2 ^ 64 - 2)

abbrev all_tool_schemas : CacheInvalidateMetadata
all_tool_schemas = record {
  invalidate_scope = CacheInvalidateScope.object_kind;
  cache_namespace = 1;
  cache_key_hi = 8;
  cache_key_lo = 0;
  reason_code = 0;
}

tool_schema_reached :
    (matches_invalidate (object 5) all_tool_schemas ≡ true)
    ↔ IsAbout CacheInvalidateScope.object_kind (object 5) all_tool_schemas
tool_schema_reached = matches_invalidate_iff (object 5) all_tool_schemas

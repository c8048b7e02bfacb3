-- ===== src/Schema/Registry.antt =====
-- crates/nnrp-core/src/schema.rs: SchemaRegistry, which maps the identifier and the version of a schema
-- to its descriptor. A method that takes `&mut self` returns the new registry and its result.
pub mod Install
pub mod Binding
pub mod History
pub mod Order
mod Tests
use nnrp_rs.Base.{
  ℕ, Bool, true, false, [], ◌∷◌, List, Option, none, some, if◌then◌else◌, ◌==◌, ◌!=◌, ltb, ◌&&◌,
}
use nnrp_rs.Base.PairDict
use nnrp_rs.Base.PairDict.{PairDict}
use nnrp_rs.Outcome.{Outcome, ok, err, reject_if, ◌>>◌}
use nnrp_rs.Schema.Descriptor.{SchemaDescriptorHeader}
use nnrp_rs.Schema.Payload.{TypedPayloadDescriptor}

abbrev pub profile_unspecified : ℕ
profile_unspecified = 0

abbrev pub profile_tensor : ℕ
profile_tensor = 1

abbrev pub profile_token : ℕ
profile_token = 2

pub data SchemaRegistryAction : Type 0 where
  installed already_installed updated invalidated : SchemaRegistryAction

pub data SchemaRegistryFailure : Type 0 where
  unknown version_unknown hash_conflict incompatible update_rejected : SchemaRegistryFailure

pub error_code : SchemaRegistryFailure → ℕ
error_code unknown = 0x00040001
error_code version_unknown = 0x00040002
error_code hash_conflict = 0x00040003
error_code incompatible = 0x00040004
error_code update_rejected = 0x00040006

pub record SchemaRegistry : Type 0 where
  pub entries : PairDict SchemaDescriptorHeader

pub new : SchemaRegistry
new = record { entries = [] }

pub validate_profile_assignment : ℕ → Outcome SchemaRegistryFailure (Unit {0})
validate_profile_assignment profile_id =
    if profile_id == profile_unspecified
    then ok tt
    else if profile_id == profile_tensor
    then ok tt
    else if profile_id == profile_token
    then ok tt
    else err update_rejected

abbrev pub lookup : SchemaRegistry → (schema_id schema_version : ℕ) → Option SchemaDescriptorHeader
lookup r schema_id schema_version = PairDict.get schema_id schema_version r.entries

pub snapshot : SchemaRegistry → List SchemaDescriptorHeader
snapshot r = PairDict.values r.entries

-- What a method returns: the registry after the call, and the result.
abbrev pub Call : Type 0
Call = SchemaRegistry × Outcome SchemaRegistryFailure SchemaRegistryAction

-- The test of the `any` that looks for an older version.
abbrev pub is_older_version : SchemaDescriptorHeader → (schema_id version : ℕ) → Bool
is_older_version d schema_id version = (schema_id == d.schema_id) && ltb version d.schema_version

pub has_older_version : SchemaRegistry → SchemaDescriptorHeader → Bool
has_older_version r d = PairDict.any_key (is_older_version d) r.entries

-- `entries.insert(key, descriptor)`.
abbrev pub with_descriptor : SchemaRegistry → SchemaDescriptorHeader → SchemaRegistry
with_descriptor r d = record { entries = PairDict.insert d.schema_id d.schema_version d r.entries }

-- `install` behind the check of the profile, by what stands under the key.
install_entry : SchemaRegistry → SchemaDescriptorHeader → Option SchemaDescriptorHeader → Call
unfolding has_older_version
install_entry r d (some existing) =
    if (existing.schema_hash == d.schema_hash) && (existing.profile_id == d.profile_id)
    then (r, ok already_installed)
    else (r, err hash_conflict)
install_entry r d none =
    (with_descriptor r d, ok (if has_older_version r d then updated else installed))

pub install : SchemaRegistry → SchemaDescriptorHeader → Call
unfolding install_entry
install r d = elim (validate_profile_assignment d.profile_id) [
  | err e ↦ (r, err e)
  | ok _ ↦ install_entry r d (lookup r d.schema_id d.schema_version)
]

pub invalidate : SchemaRegistry → (schema_id schema_version : ℕ) → Call
invalidate r schema_id schema_version = elim (lookup r schema_id schema_version) [
  | none ↦ (r, err version_unknown)
  | some _ ↦
      (record { entries = PairDict.remove schema_id schema_version r.entries }, ok invalidated)
]

pub token_delta_schema_descriptor : SchemaDescriptorHeader
token_delta_schema_descriptor = record {
  schema_id = 0x00001001;
  schema_version = 3;
  profile_id = profile_token;
  schema_flags = 0;
  min_version_major = 1;
  max_version_major = 1;
  body_bytes = 0;
  dependency_count = 0;
  default_stream_semantics = 2;
  schema_hash = 0x6e6e7270746f6b33;
}

pub standard : SchemaRegistry
unfolding install token_delta_schema_descriptor
standard = (install new token_delta_schema_descriptor).0

-- The end of `validate_binding`, by what `lookup` finds.
check_schema :
    SchemaRegistry
    → TypedPayloadDescriptor
    → Option SchemaDescriptorHeader
    → Outcome SchemaRegistryFailure (Unit {0})
check_schema r d none =
    if PairDict.any_key (λ schema_id version. schema_id == d.schema_id) r.entries
    then err version_unknown
    else err unknown
check_schema r d (some schema) = reject_if (schema.profile_id != d.profile_id) incompatible

-- The middle of `validate_binding`.
check_binding : SchemaRegistry → TypedPayloadDescriptor → Outcome SchemaRegistryFailure (Unit {0})
unfolding check_schema
check_binding r d =
    if d.profile_id == profile_unspecified
    then if (d.schema_id == 0) && (d.schema_version == 0) then ok tt else err incompatible
    else if d.schema_id == 0
    then err unknown
    else check_schema r d (lookup r d.schema_id d.schema_version)

pub validate_binding :
    SchemaRegistry → TypedPayloadDescriptor → Outcome SchemaRegistryFailure (Unit {0})
unfolding check_binding
validate_binding r d = do validate_profile_assignment d.profile_id; check_binding r d

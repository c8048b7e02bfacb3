-- ===== src/Schema/Registry/Binding.antt =====
-- SchemaRegistry::validate_binding: which typed payloads it accepts, and why it refuses the others.
use nnrp_rs.Base.{
  ℕ, ◌≡◌, ◌≢◌, refl, ◌⊎◌, ◌↔◌, inl, inr, Option, none, some, arith, Bool, true, Bool-cases, ◌==◌,
  ◌&&◌, dec_lt,
}
use nnrp_rs.Base.PairDict.{any_key, any_key_sound, any_key_complete}
use nnrp_rs.Outcome.{Outcome, ok, err}
use nnrp_rs.Schema.Descriptor.{SchemaDescriptorHeader}
use nnrp_rs.Schema.Payload.{TypedPayloadDescriptor}
use nnrp_rs.Schema.Registry.{
  SchemaRegistry, SchemaRegistryFailure, unknown, version_unknown, incompatible, update_rejected,
  lookup, validate_binding, check_binding, check_schema,
}
use nnrp_rs.Schema.Registry.Install.{
  IsStandardProfile, validate_profile_assignment_iff, validate_profile_assignment-err,
}

-- Some version of the schema is known.
abbrev pub IsKnownSchema : SchemaRegistry → ℕ → Type 0
IsKnownSchema r i = (v : ℕ) × ((s : SchemaDescriptorHeader) × (lookup r i v ≡ some s))

-- The verdict on a typed payload: one case for each situation.
pub data Binds (r : SchemaRegistry) (d : TypedPayloadDescriptor)
    : Outcome SchemaRegistryFailure (Unit {0}) → Type 0 where
  not_assigned : ¬ IsStandardProfile d.profile_id → Binds r d (err update_rejected)
  -- A payload with no profile names no schema.
  unbound : d.profile_id ≡ 0 → d.schema_id ≡ 0 → d.schema_version ≡ 0 → Binds r d (ok tt)
  named_without_profile :
      d.profile_id ≡ 0 → (d.schema_id ≢ 0) ⊎ (d.schema_version ≢ 0) → Binds r d (err incompatible)
  bound :
      (s : SchemaDescriptorHeader)
      → IsStandardProfile d.profile_id
      → d.profile_id ≢ 0
      → d.schema_id ≢ 0
      → lookup r d.schema_id d.schema_version ≡ some s
      → s.profile_id ≡ d.profile_id
      → Binds r d (ok tt)
  other_profile :
      (s : SchemaDescriptorHeader)
      → IsStandardProfile d.profile_id
      → d.profile_id ≢ 0
      → d.schema_id ≢ 0
      → lookup r d.schema_id d.schema_version ≡ some s
      → s.profile_id ≢ d.profile_id
      → Binds r d (err incompatible)
  no_version :
      IsStandardProfile d.profile_id
      → d.profile_id ≢ 0
      → d.schema_id ≢ 0
      → lookup r d.schema_id d.schema_version ≡ none
      → IsKnownSchema r d.schema_id
      → Binds r d (err version_unknown)
  no_schema :
      IsStandardProfile d.profile_id
      → d.profile_id ≢ 0
      → (d.schema_id ≡ 0) ⊎ ((d.schema_id ≢ 0) × (¬ IsKnownSchema r d.schema_id))
      → Binds r d (err unknown)

module _ (r : SchemaRegistry) (d : TypedPayloadDescriptor) where
  abbrev names : ℕ → ℕ → Bool
  names schema_id version = schema_id == d.schema_id

  any_version_iff : (any_key names r.entries ≡ true) ↔ IsKnownSchema r d.schema_id
  any_version_iff = (
    λ h.
        let (a, b, s, found, hit) = any_key_sound names r.entries h in
        let same_id : a ≡ d.schema_id = ground arith in (b, (s, rw same_id at found)),
    λ (v, (s, found)). any_key_complete names r.entries d.schema_id v s found (ground arith),
  )

  module _ (p : IsStandardProfile d.profile_id) (profiled : d.profile_id ≢ 0)
      (named : d.schema_id ≢ 0) where
    check_schema-Binds :
        (o : Option SchemaDescriptorHeader)
        → lookup r d.schema_id d.schema_version ≡ o
        → Binds r d (check_schema r d o)
    unfolding check_schema
    check_schema-Binds none gone = elim (Bool-cases (any_key names r.entries)) [
      | inl other ↦ rw other (no_version p profiled named gone (any_version_iff.0 other))
      | inr nothing ↦
          rw nothing
            (no_schema p profiled (inr (named, λ k. absurd (let e = any_version_iff.1 k in cc))))
    ]
    check_schema-Binds (some s) found = elim (Bool-cases (s.profile_id == d.profile_id)) [
      | inl eq ↦ rw eq (bound s p profiled named found (ground arith))
      | inr ne ↦ rw ne (other_profile s p profiled named found (ground arith))
    ]

  check_binding-Binds : IsStandardProfile d.profile_id → Binds r d (check_binding r d)
  unfolding check_binding
  check_binding-Binds p = elim (Bool-cases (d.profile_id == 0)) [
    | inl none_given ↦
        rw (none_given, check_binding)
          (elim (Bool-cases ((d.schema_id == 0) && (d.schema_version == 0))) [
            | inl zero_ids ↦ rw zero_ids (unbound (ground arith) (ground arith) (ground arith))
            | inr ids ↦ rw ids (
                named_without_profile (ground arith) (elim (Bool-cases (d.schema_id == 0)) [
                  | inl z ↦ inr (ground arith)
                  | inr nz ↦ inl (ground arith)
                ]))
          ])
    | inr given ↦
        rw (given, check_binding)
          (elim (Bool-cases (d.schema_id == 0)) [
            | inl z ↦ rw z (no_schema p (ground arith) (inl (ground arith)))
            | inr nz ↦ rw nz (check_schema-Binds p (ground arith) (ground arith) _ refl)
          ])
  ]

  -- `validate_binding` gives the verdict that `Binds` describes: accepted is a payload without a
  -- profile that names no schema, and one whose profile is that of the version it names; a profile
  -- that is not a standard one, a schema named without a profile, a schema of another profile, an
  -- unknown version and an unknown schema are refused, each with its own error except that the second
  -- and the third are both incompatible.
  pub validate_binding_lem : Binds r d (validate_binding r d)
  unfolding validate_binding
  validate_binding_lem = elim (dec_lt d.profile_id 3) [
    | yes standard ↦
        rw ((validate_profile_assignment_iff d.profile_id).1 standard, validate_binding)
          (check_binding-Binds standard)
    | no other ↦
        rw (validate_profile_assignment-err d.profile_id other, validate_binding)
          (not_assigned other)
  ]

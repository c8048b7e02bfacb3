-- ===== src/Schema/Registry/Tests.antt =====
-- Runs of the registry of schemas on concrete descriptors.
use nnrp_rs.Base.{ℕ, List, [], ◌∷◌, ◌≡◌, refl, some, none, arith, All, false, true}
use nnrp_rs.Base.PairDict.{same}
use nnrp_rs.Outcome.{ok, err}
use nnrp_rs.Enums.PayloadKind
use nnrp_rs.Schema.Descriptor.{SchemaDescriptorHeader}
use nnrp_rs.Schema.Payload.{TypedPayloadDescriptor}
use nnrp_rs.Schema.Registry.{
  SchemaRegistry, standard, install, invalidate, lookup, validate_binding,
  token_delta_schema_descriptor, updated, already_installed, hash_conflict, version_unknown,
  unknown, incompatible, snapshot, new, installed,
}
use nnrp_rs.Schema.Registry.Install.{Inv, Installs, install_lem, install-Inv, new-Inv}
use nnrp_rs.Schema.Registry.Binding.{Binds, validate_binding_lem}
use nnrp_rs.Schema.Registry.History.{Request, installing, invalidating, run, run_keeps}
use nnrp_rs.Schema.Registry.Order.{IsNew, install_comm}

abbrev version_of_token_delta : ℕ → ℕ → SchemaDescriptorHeader
version_of_token_delta version hash = record token_delta_schema_descriptor {
  schema_version = version;
  schema_hash = hash;
}

abbrev payload : ℕ → ℕ → ℕ → TypedPayloadDescriptor
payload profile_id schema_id schema_version = record {
  profile_id = profile_id;
  payload_kind = PayloadKind.token_chunk;
  descriptor_flags = 0;
  schema_id = schema_id;
  schema_version = schema_version;
  stream_semantics = 2;
  offset = 0;
  length = 16;
}

standard_installs : (install new token_delta_schema_descriptor).1 ≡ ok installed
unfolding install new token_delta_schema_descriptor
    nnrp_rs.Schema.Registry.validate_profile_assignment nnrp_rs.Base.PairDict.get
    nnrp_rs.Base.PairDict.any_key
standard_installs = refl

newer_version : (install standard (version_of_token_delta 4 7)).1 ≡ ok updated
unfolding install standard nnrp_rs.Schema.Registry.validate_profile_assignment
    nnrp_rs.Base.PairDict.get nnrp_rs.Schema.Registry.new nnrp_rs.Base.PairDict.insert
    nnrp_rs.Base.PairDict.any_key
newer_version = refl

same_again : install standard token_delta_schema_descriptor ≡ (standard, ok already_installed)
unfolding install standard nnrp_rs.Schema.Registry.validate_profile_assignment
    nnrp_rs.Base.PairDict.get nnrp_rs.Schema.Registry.new nnrp_rs.Base.PairDict.insert
same_again = refl

other_hash : (install standard (version_of_token_delta 3 7)).1 ≡ err hash_conflict
unfolding install standard nnrp_rs.Schema.Registry.validate_profile_assignment
    nnrp_rs.Base.PairDict.get nnrp_rs.Schema.Registry.new nnrp_rs.Base.PairDict.insert
other_hash = refl

accepted_payload : validate_binding standard (payload 2 0x1001 3) ≡ ok tt
unfolding validate_binding standard nnrp_rs.Schema.Registry.validate_profile_assignment
    nnrp_rs.Base.PairDict.get nnrp_rs.Schema.Registry.new nnrp_rs.Base.PairDict.insert
accepted_payload = refl

missing_version : validate_binding standard (payload 2 0x1001 9) ≡ err version_unknown
unfolding validate_binding standard nnrp_rs.Schema.Registry.validate_profile_assignment
    nnrp_rs.Base.PairDict.get nnrp_rs.Schema.Registry.new nnrp_rs.Base.PairDict.insert
    nnrp_rs.Base.PairDict.any_key
missing_version = refl

wrong_profile : validate_binding standard (payload 1 0x1001 3) ≡ err incompatible
unfolding validate_binding standard nnrp_rs.Schema.Registry.validate_profile_assignment
    nnrp_rs.Base.PairDict.get nnrp_rs.Schema.Registry.new nnrp_rs.Base.PairDict.insert
wrong_profile = refl

standard-Inv : Inv standard
unfolding standard
standard-Inv = install-Inv _ token_delta_schema_descriptor new-Inv

standard-lookup : lookup standard 0x1001 3 ≡ some token_delta_schema_descriptor
unfolding standard nnrp_rs.Base.PairDict.get nnrp_rs.Schema.Registry.validate_profile_assignment
    nnrp_rs.Schema.Registry.new nnrp_rs.Base.PairDict.insert
standard-lookup = refl

abbrev some_calls : List Request
some_calls =
    installing (version_of_token_delta 3 7)
    ∷ installing (version_of_token_delta 4 8)
    ∷ invalidating 0x1001 4
    ∷ []

run_keeps_example : lookup (run some_calls standard) 0x1001 3 ≡ some token_delta_schema_descriptor
run_keeps_example =
    run_keeps some_calls standard token_delta_schema_descriptor 0x1001 3 standard-Inv
      (tt, (tt, (refl, tt))) standard-lookup

four-IsNew : IsNew standard (version_of_token_delta 4 8)
unfolding standard nnrp_rs.Base.PairDict.get nnrp_rs.Schema.Registry.validate_profile_assignment
    nnrp_rs.Schema.Registry.new nnrp_rs.Base.PairDict.insert
four-IsNew = record { standard = omega arith; free = refl }

two-IsNew : IsNew standard (version_of_token_delta 2 9)
unfolding standard nnrp_rs.Base.PairDict.get nnrp_rs.Schema.Registry.validate_profile_assignment
    nnrp_rs.Schema.Registry.new nnrp_rs.Base.PairDict.insert
two-IsNew = record { standard = omega arith; free = refl }

install_comm_example :
    (install (install standard (version_of_token_delta 4 8)).0 (version_of_token_delta 2 9)).0
    ≡ (install (install standard (version_of_token_delta 2 9)).0 (version_of_token_delta 4 8)).0
unfolding token_delta_schema_descriptor
install_comm_example =
    install_comm standard (version_of_token_delta 4 8) (version_of_token_delta 2 9) standard-Inv
      four-IsNew two-IsNew refl

install_lem_example :
    Installs standard (version_of_token_delta 4 8) (install standard (version_of_token_delta 4 8))
install_lem_example = install_lem standard (version_of_token_delta 4 8)

validate_binding_lem_example :
    Binds standard (payload 2 0x1001 9) (validate_binding standard (payload 2 0x1001 9))
validate_binding_lem_example = validate_binding_lem standard (payload 2 0x1001 9)

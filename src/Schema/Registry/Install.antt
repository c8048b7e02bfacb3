-- ===== src/Schema/Registry/Install.antt =====
-- SchemaRegistry::install and invalidate: what each does with the registry, and the invariant.
use nnrp_rs.Base.{
  ℕ, ◌<◌, ◌≡◌, ◌≢◌, refl, ◌⊎◌, ◌↔◌, inl, inr, Option, none, some, arith, if◌then◌else◌, Bool, true,
  false, Bool-cases, Option-cases, ◌==◌, ◌&&◌, dec_lt,
}
use nnrp_rs.Base.PairDict.{
  Ascends, Ascends-insert, Ascends-remove, get-insert, get-remove, any_key_sound, any_key_complete,
  same,
}
use nnrp_rs.Outcome.{ok, err}
use nnrp_rs.Schema.Descriptor.{SchemaDescriptorHeader}
use nnrp_rs.Schema.Registry.{
  SchemaRegistry, Call, installed, already_installed, updated, hash_conflict, update_rejected,
  install, install_entry, invalidate, lookup, with_descriptor, has_older_version, is_older_version,
  validate_profile_assignment, new,
}

abbrev pub IsStandardProfile : ℕ → Type 0
IsStandardProfile p = p < 3

-- Every descriptor stands under its own identifier and version, and has a standard profile.
pub record Inv (r : SchemaRegistry) : Type 0 where
  pub ascends : Ascends r.entries
  pub keyed :
      (i v : ℕ) (d : SchemaDescriptorHeader)
      → lookup r i v ≡ some d
      → (d.schema_id ≡ i) × (d.schema_version ≡ v) × IsStandardProfile d.profile_id

pub validate_profile_assignment_iff :
    (p : ℕ) → (validate_profile_assignment p ≡ ok tt) ↔ IsStandardProfile p
unfolding validate_profile_assignment
validate_profile_assignment_iff p = (λ e. ground arith, λ h. ground arith)

pub validate_profile_assignment-err :
    (p : ℕ) → ¬ IsStandardProfile p → validate_profile_assignment p ≡ err update_rejected
unfolding validate_profile_assignment
validate_profile_assignment-err p h = ground arith

-- An older version of the schema is known.
abbrev pub HasOlder : SchemaRegistry → SchemaDescriptorHeader → Type 0
HasOlder r d =
    (v : ℕ) × (v < d.schema_version)
    × ((e : SchemaDescriptorHeader) × (lookup r d.schema_id v ≡ some e))

has_older_version_iff :
    (r : SchemaRegistry) (d : SchemaDescriptorHeader)
    → (has_older_version r d ≡ true) ↔ HasOlder r d
unfolding has_older_version
has_older_version_iff r d = (
  λ h.
      let (a, b, e, found, hit) = any_key_sound (is_older_version d) r.entries h in
      let same_id : a ≡ d.schema_id = ground arith in (b, ground arith, (e, rw same_id at found)),
  λ (v, older, (e, found)).
      any_key_complete (is_older_version d) r.entries d.schema_id v e found (ground arith),
)

-- What `install` may do: one case for each situation.
pub data Installs (r : SchemaRegistry) (d : SchemaDescriptorHeader) : Call → Type 0 where
  not_assigned : ¬ IsStandardProfile d.profile_id → Installs r d (r, err update_rejected)
  -- The same schema again.
  again :
      (e : SchemaDescriptorHeader)
      → IsStandardProfile d.profile_id
      → lookup r d.schema_id d.schema_version ≡ some e
      → e.schema_hash ≡ d.schema_hash
      → e.profile_id ≡ d.profile_id
      → Installs r d (r, ok already_installed)
  -- The version is taken by another schema.
  conflict :
      (e : SchemaDescriptorHeader)
      → IsStandardProfile d.profile_id
      → lookup r d.schema_id d.schema_version ≡ some e
      → (e.schema_hash ≢ d.schema_hash) ⊎ (e.profile_id ≢ d.profile_id)
      → Installs r d (r, err hash_conflict)
  first :
      IsStandardProfile d.profile_id
      → lookup r d.schema_id d.schema_version ≡ none
      → ¬ HasOlder r d
      → Installs r d (with_descriptor r d, ok installed)
  newer :
      IsStandardProfile d.profile_id
      → lookup r d.schema_id d.schema_version ≡ none
      → HasOlder r d
      → Installs r d (with_descriptor r d, ok updated)

module _ (r : SchemaRegistry) (d : SchemaDescriptorHeader) where
  install_entry-Installs :
      IsStandardProfile d.profile_id
      → (o : Option SchemaDescriptorHeader) → lookup r d.schema_id d.schema_version ≡ o
      → Installs r d (install_entry r d o)
  unfolding install_entry
  install_entry-Installs p none free = elim (Bool-cases (has_older_version r d)) [
    | inl older ↦ rw older (newer p free ((has_older_version_iff r d).0 older))
    | inr none_older ↦
        rw none_older (first p free λ h. absurd (let e = (has_older_version_iff r d).1 h in cc))
  ]
  install_entry-Installs p (some e) taken =
      elim (Bool-cases ((e.schema_hash == d.schema_hash) && (e.profile_id == d.profile_id))) [
        | inl equal ↦ rw equal (again e p taken (ground arith) (ground arith))
        | inr differs ↦ rw differs (
            conflict e p taken (elim (Bool-cases (e.schema_hash == d.schema_hash)) [
              | inl hash ↦ inr (ground arith)
              | inr hash ↦ inl (ground arith)
            ]))
      ]

  with_descriptor-Inv : Inv r → IsStandardProfile d.profile_id → Inv (with_descriptor r d)
  with_descriptor-Inv inv p = record {
    ascends = Ascends-insert d.schema_id d.schema_version d r.entries inv.ascends;
    keyed = λ i v e h.
        let g = get-insert i v d.schema_id d.schema_version d r.entries in
        elim (Bool-cases (same d.schema_id d.schema_version i v)) [
          | inl hit ↦ let e_is : e ≡ d = ground arith in ground arith
          | inr miss ↦ inv.keyed i v e (ground arith)
        ];
  }

  -- `install` does what `Installs` says: a profile that is not a standard one is refused; a known
  -- version with the same hash and profile changes nothing, and with another hash or profile is a
  -- conflict; a new version is stored, as an update exactly if an older version of it is known.
  pub install_lem : Installs r d (install r d)
  unfolding install
  install_lem = elim (dec_lt d.profile_id 3) [
    | yes standard ↦
        rw ((validate_profile_assignment_iff d.profile_id).1 standard, install)
          (install_entry-Installs standard _ refl)
    | no other ↦
        rw (validate_profile_assignment-err d.profile_id other, install) (not_assigned other)
  ]

  Installs-Inv : {c : Call} → Inv r → Installs r d c → Inv c.0
  Installs-Inv inv (not_assigned p) = inv
  Installs-Inv inv (again e p taken hash profile) = inv
  Installs-Inv inv (conflict e p taken differs) = inv
  Installs-Inv inv (first p free h) = with_descriptor-Inv inv p
  Installs-Inv inv (newer p free h) = with_descriptor-Inv inv p

  pub install-Inv : Inv r → Inv (install r d).0
  install-Inv inv = Installs-Inv inv install_lem

pub lookup-invalidate :
    (r : SchemaRegistry) (i v j w : ℕ)
    → Inv r
    → lookup (invalidate r i v).0 j w ≡ (if same i v j w then none else lookup r j w)
unfolding invalidate
lookup-invalidate r i v j w inv =
    let g = get-remove j w i v r.entries inv.ascends in
    elim (Option-cases (lookup r i v)) [
      | inl gone ↦
          rw (gone, invalidate)
            (elim (Bool-cases (same i v j w)) [
              | inl hit ↦
                  let first : i ≡ j = ground arith in
                  let second : v ≡ w = ground arith in
                  let nothing : lookup r j w ≡ none = rw (first, second) at gone in ground arith
              | inr miss ↦ rw miss refl
            ])
      | inr (d, found) ↦ rw (found, invalidate) g
    ]

pub invalidate-Inv : (r : SchemaRegistry) (i v : ℕ) → Inv r → Inv (invalidate r i v).0
unfolding invalidate
invalidate-Inv r i v inv = elim (Option-cases (lookup r i v)) [
  | inl gone ↦ rw (gone, invalidate) inv
  | inr (d, found) ↦
      rw (found, invalidate)
        (record {
          ascends = Ascends-remove i v r.entries inv.ascends;
          keyed = λ j w e h.
              let g = get-remove j w i v r.entries inv.ascends in inv.keyed j w e (ground arith);
        })
]

pub new-Inv : Inv new
unfolding new nnrp_rs.Base.PairDict.get
new-Inv = record { ascends = tt; keyed = λ i v d h. absurd (cc) }

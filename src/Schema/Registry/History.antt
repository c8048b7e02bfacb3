-- ===== src/Schema/Registry/History.antt =====
-- Sequences of calls on a registry: the invariant, and that an installed descriptor stays.
use nnrp_rs.Base.{ℕ, List, [], ◌∷◌, ◌≡◌, inl, inr, some, none, arith, All, Bool-cases, false}
use nnrp_rs.Base.PairDict.{same, get-insert}
use nnrp_rs.Schema.Descriptor.{SchemaDescriptorHeader}
use nnrp_rs.Schema.Registry.{SchemaRegistry, Call, install, invalidate, lookup, with_descriptor}
use nnrp_rs.Schema.Registry.Install.{
  Inv, install-Inv, invalidate-Inv, lookup-invalidate, Installs, install_lem,
}

-- One call that changes the registry.
pub data Request : Type 0 where
  installing : SchemaDescriptorHeader → Request
  invalidating : (schema_id schema_version : ℕ) → Request

pub step : SchemaRegistry → Request → SchemaRegistry
step r (installing d) = (install r d).0
step r (invalidating i v) = (invalidate r i v).0

pub run : List Request → SchemaRegistry → SchemaRegistry
unfolding step
run [] r = r
run (q ∷ qs) r = run qs (step r q)

step-Inv : (r : SchemaRegistry) (q : Request) → Inv r → Inv (step r q)
unfolding step
step-Inv r (installing d) inv = install-Inv r d inv
step-Inv r (invalidating i v) inv = invalidate-Inv r i v inv

pub run-Inv : (qs : List Request) (r : SchemaRegistry) → Inv r → Inv (run qs r)
unfolding run
run-Inv [] r inv = inv
run-Inv (q ∷ qs) r inv = run-Inv qs (step r q) (step-Inv r q inv)

-- The call does not invalidate this version of this schema.
abbrev pub Spares : (schema_id schema_version : ℕ) → Request → Type 0
Spares i v (installing d) = Unit
Spares i v (invalidating j w) = same j w i v ≡ false

with_descriptor-keeps :
    (r : SchemaRegistry) (d e : SchemaDescriptorHeader) (i v : ℕ)
    → lookup r i v ≡ some e
    → lookup r d.schema_id d.schema_version ≡ none
    → lookup (with_descriptor r d) i v ≡ some e
with_descriptor-keeps r d e i v known free =
    let g = get-insert i v d.schema_id d.schema_version d r.entries in
    elim (Bool-cases (same d.schema_id d.schema_version i v)) [
      | inl hit ↦
          let first : d.schema_id ≡ i = ground arith in
          let second : d.schema_version ≡ v = ground arith in
          let nothing : lookup r i v ≡ none = rw (first, second) at free in absurd (cc)
      | inr miss ↦ ground arith
    ]

Installs-keeps :
    (r : SchemaRegistry) (d e : SchemaDescriptorHeader) (i v : ℕ) {c : Call}
    → lookup r i v ≡ some e
    → Installs r d c
    → lookup c.0 i v ≡ some e
Installs-keeps r d e i v known (Installs.not_assigned p) = known
Installs-keeps r d e i v known (Installs.again f p taken hash profile) = known
Installs-keeps r d e i v known (Installs.conflict f p taken differs) = known
Installs-keeps r d e i v known (Installs.first p free h) =
    with_descriptor-keeps r d e i v known free
Installs-keeps r d e i v known (Installs.newer p free h) =
    with_descriptor-keeps r d e i v known free

step-keeps :
    (r : SchemaRegistry) (q : Request) (e : SchemaDescriptorHeader) (i v : ℕ)
    → Inv r
    → Spares i v q
    → lookup r i v ≡ some e
    → lookup (step r q) i v ≡ some e
unfolding step
step-keeps r (installing d) e i v inv spared known =
    Installs-keeps r d e i v known (install_lem r d)
step-keeps r (invalidating j w) e i v inv spared known =
    let g = lookup-invalidate r j w i v inv in ground arith

-- A descriptor that is installed stays as it is, whatever is installed or invalidated afterwards, as
-- long as its own version is not invalidated.
pub run_keeps :
    (qs : List Request) (r : SchemaRegistry) (e : SchemaDescriptorHeader) (i v : ℕ)
    → Inv r
    → All (Spares i v) qs
    → lookup r i v ≡ some e
    → lookup (run qs r) i v ≡ some e
unfolding run
run_keeps [] r e i v inv spared known = known
run_keeps (q ∷ qs) r e i v inv spared known =
    run_keeps qs (step r q) e i v (step-Inv r q inv) spared.1
      (step-keeps r q e i v inv spared.0 known)

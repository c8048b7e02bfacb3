-- ===== src/Schema/Registry/Order.antt =====
-- The order in which descriptors are installed does not show in the registry.
use nnrp_rs.Base.{ℕ, ◌≡◌, refl, ap, ◌∙◌, some, none, arith, false, if◌then◌else◌, Option}
use nnrp_rs.Base.PairDict.{same, get-insert, get-ext}
use nnrp_rs.Schema.Descriptor.{SchemaDescriptorHeader}
use nnrp_rs.Schema.Registry.{SchemaRegistry, Call, install, lookup, with_descriptor}
use nnrp_rs.Schema.Registry.Install.{Inv, IsStandardProfile, Installs, install_lem, install-Inv}

-- Two registries that answer every look-up alike are the same.
pub lookup-ext :
    (r q : SchemaRegistry) → Inv r → Inv q → ((i v : ℕ) → lookup r i v ≡ lookup q i v) → r ≡ q
lookup-ext r q inv inv' h =
    ap (λ x. record { entries = x }) (get-ext r.entries q.entries inv.ascends inv'.ascends h)

-- A descriptor that `install` can add.
pub record IsNew (r : SchemaRegistry) (d : SchemaDescriptorHeader) : Type 0 where
  pub standard : IsStandardProfile d.profile_id
  pub free : lookup r d.schema_id d.schema_version ≡ none

Installs-new :
    (r : SchemaRegistry) (d : SchemaDescriptorHeader) {c : Call}
    → IsNew r d
    → Installs r d c
    → c.0 ≡ with_descriptor r d
Installs-new r d n (Installs.not_assigned p) = absurd (p n.standard)
Installs-new r d n (Installs.again e p taken hash profile) = absurd (let f = n.free in cc)
Installs-new r d n (Installs.conflict e p taken differs) = absurd (let f = n.free in cc)
Installs-new r d n (Installs.first p free h) = refl
Installs-new r d n (Installs.newer p free h) = refl

pub install-new :
    (r : SchemaRegistry) (d : SchemaDescriptorHeader)
    → IsNew r d
    → (install r d).0 ≡ with_descriptor r d
install-new r d n = Installs-new r d n (install_lem r d)

module _ (r : SchemaRegistry) (d e : SchemaDescriptorHeader) (inv : Inv r) (new_d : IsNew r d)
    (new_e : IsNew r e)
    (apart : same d.schema_id d.schema_version e.schema_id e.schema_version ≡ false) where
  IsNew-after : IsNew (install r d).0 e
  IsNew-after =
      let g = get-insert e.schema_id e.schema_version d.schema_id d.schema_version d r.entries in
      let f = new_e.free in
      record { standard = new_e.standard; free = rw (install-new r d new_d) (ground arith) }

  lookup-both :
      (i v : ℕ)
      → lookup (install (install r d).0 e).0 i v ≡ (
          if same e.schema_id e.schema_version i v
          then some e
          else if same d.schema_id d.schema_version i v
          then some d
          else lookup r i v)
  lookup-both i v =
      let e_at = λ (o : Option SchemaDescriptorHeader).
        if same e.schema_id e.schema_version i v then some e else o in
      let second = ap (λ x. lookup x i v) (install-new (install r d).0 e IsNew-after) in
      let first = ap (λ x. lookup x i v) (install-new r d new_d) in
      second
      ∙ get-insert i v e.schema_id e.schema_version e (install r d).0.entries
      ∙ ap e_at (first ∙ get-insert i v d.schema_id d.schema_version d r.entries)

-- Two new descriptors, of different schemas or different versions, can be installed in either order:
-- the registry is the same afterwards, and so is its snapshot.
pub install_comm :
    (r : SchemaRegistry) (d e : SchemaDescriptorHeader)
    → Inv r
    → IsNew r d
    → IsNew r e
    → same d.schema_id d.schema_version e.schema_id e.schema_version ≡ false
    → (install (install r d).0 e).0 ≡ (install (install r e).0 d).0
install_comm r d e inv new_d new_e apart =
    let apart' : same e.schema_id e.schema_version d.schema_id d.schema_version ≡ false =
      ground arith in
    lookup-ext (install (install r d).0 e).0 (install (install r e).0 d).0
      (install-Inv (install r d).0 e (install-Inv r d inv))
      (install-Inv (install r e).0 d (install-Inv r e inv))
      (λ i v.
        let one = lookup-both r d e inv new_d new_e apart i v in
        let two = lookup-both r e d inv new_e new_d apart' i v in ground arith)

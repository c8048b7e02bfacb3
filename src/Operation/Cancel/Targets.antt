-- ===== src/Operation/Cancel/Targets.antt =====
-- The records of the registry that a filter picks, and those that name a parent.
use nnrp_rs.Base.{
  ℕ, suc, ◌≡◌, inl, inr, Bool, true, [], ◌∷◌, filter, some, arith, ◌==◌, Bool-cases, ==_iff, ap,
  ◌∙◌,
}
use nnrp_rs.Base.Dict.{Dict, get, values, Above, Above-get}
use nnrp_rs.Operation.{OperationRecord}
use nnrp_rs.Operation.Cancel.{member, ids}
use nnrp_rs.Operation.Cancel.Descendants.{IsChild}

-- Every record is stored under its own identifier.
abbrev pub Keyed : Dict OperationRecord → Type 0
Keyed m = (k : ℕ) (rec : OperationRecord) → get k m ≡ some rec → rec.descriptor.operation_id ≡ k

Keyed-head :
    (j : ℕ) (rec : OperationRecord) (m : Dict OperationRecord)
    → Keyed ((j, rec) ∷ m)
    → rec.descriptor.operation_id ≡ j
unfolding get
Keyed-head j rec m keyed = keyed j rec (ground (arith, ==_iff j j))

-- Below the head of an ascending map the lookups are those of the tail.
get-tail :
    (n j k : ℕ) (rec v : OperationRecord) (m : Dict OperationRecord)
    → Above n ((j, rec) ∷ m)
    → get k m ≡ some v
    → get k ((j, rec) ∷ m) ≡ some v
unfolding get
get-tail n j k rec v m a e = ground (arith, Above-get (suc j) k v m a.1, ==_iff j k)

Keyed-tail :
    (n j : ℕ) (rec : OperationRecord) (m : Dict OperationRecord)
    → Above n ((j, rec) ∷ m)
    → Keyed ((j, rec) ∷ m)
    → Keyed m
Keyed-tail n j rec m a keyed k v e = keyed k v (get-tail n j k rec v m a e)

pub filtered_sound :
    (p : OperationRecord → Bool) (n k : ℕ) (m : Dict OperationRecord)
    → Above n m
    → Keyed m
    → member k (ids (filter p (values m))) ≡ true
    → (rec : OperationRecord) × (get k m ≡ some rec) × (p rec ≡ true)
unfolding values member get
filtered_sound p n k [] a keyed h = absurd (ground arith)
filtered_sound p n k ((j, rec) ∷ m) a keyed h =
    let below = Keyed-tail n j rec m a keyed in
    let own = Keyed-head j rec m keyed in
    elim (Bool-cases (p rec)) [
      | inl taken ↦ elim (Bool-cases (j == k)) [
        | inl hit ↦ (rec, ground arith, taken)
        | inr miss ↦
            let (v, e, q) = filtered_sound p (suc j) k m a.1 below (ground arith) in
            (v, get-tail n j k rec v m a e, q)
      ]
      | inr left ↦
          let (v, e, q) = filtered_sound p (suc j) k m a.1 below (ground arith) in
          (v, get-tail n j k rec v m a e, q)
    ]

pub filtered_complete :
    (p : OperationRecord → Bool) (n k : ℕ) (m : Dict OperationRecord) (rec : OperationRecord)
    → Above n m
    → Keyed m
    → get k m ≡ some rec
    → p rec ≡ true
    → member k (ids (filter p (values m))) ≡ true
unfolding values member get
filtered_complete p n k [] rec a keyed e h = absurd (ground arith)
filtered_complete p n k ((j, v) ∷ m) rec a keyed e h =
    let below = Keyed-tail n j v m a keyed in
    let own = Keyed-head j v m keyed in
    ground (arith, filtered_complete p (suc j) k m rec a.1 below, ==_iff j k)

pub child_known :
    (n p k : ℕ) (m : Dict OperationRecord)
    → Above n m
    → Keyed m
    → IsChild (values m) p k
    → (rec : OperationRecord) × (get k m ≡ some rec) × (rec.descriptor.parent_operation_id ≡ some p)
unfolding values get
child_known n p k [] a keyed c = absurd c
child_known n p k ((j, rec) ∷ m) a keyed (inl (e, i)) =
    (rec, ground (arith, Keyed-head j rec m keyed, ==_iff j k), e)
child_known n p k ((j, rec) ∷ m) a keyed (inr c) =
    let (v, e, q) = child_known (suc j) p k m a.1 (Keyed-tail n j rec m a keyed) c in
    (v, get-tail n j k rec v m a e, q)

-- A record that names a parent is a child among the records.
pub known-IsChild :
    (n p k : ℕ) (m : Dict OperationRecord) (rec : OperationRecord)
    → Above n m
    → Keyed m
    → get k m ≡ some rec
    → rec.descriptor.parent_operation_id ≡ some p
    → IsChild (values m) p k
unfolding values get
known-IsChild n p k [] rec a keyed e h = absurd (ground arith)
known-IsChild n p k ((j, v) ∷ m) rec a keyed e h = elim (Bool-cases (j == k)) [
  | inl hit ↦
      let same : v ≡ rec = ground arith in
      inl (
        ap (λ x. x.descriptor.parent_operation_id) same ∙ h,
        Keyed-head j v m keyed ∙ (==_iff j k).0 hit,
      )
  | inr miss ↦
      inr (known-IsChild (suc j) p k m rec a.1 (Keyed-tail n j v m a keyed) (ground arith) h)
]

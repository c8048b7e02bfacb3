-- ===== src/Operation/Invariant.antt =====
-- What holds of the registry between two calls.
use nnrp_rs.Base.{ℕ, ◌<◌, ◌≡◌, ◌≢◌, sym, subst, ap, ◌∙◌, inl, inr, some, arith, Option-cases}
use nnrp_rs.Base.Dict.{get, Ascends}
use nnrp_rs.Operation.{OperationRecord, OperationRegistry, operation, new}
use nnrp_rs.Operation.Evolution.{Evolves}

-- The parent is another operation that the registry knows, of the same session, and of lower rank.
pub record HasParent (r : OperationRegistry) (rank : ℕ → ℕ) (rec : OperationRecord) (p : ℕ)
    : Type 0 where
  pub parent : OperationRecord
  pub known : operation r p ≡ some parent
  pub same_session : parent.descriptor.session_id ≡ rec.descriptor.session_id
  pub lower : rank p < rank rec.descriptor.operation_id

-- An operation is stored under its own identifier, with non-zero identifiers.
pub record IsPlaced (r : OperationRegistry) (rank : ℕ → ℕ) (k : ℕ) (rec : OperationRecord)
    : Type 0 where
  pub keyed : rec.descriptor.operation_id ≡ k
  pub operation_non_zero : k ≢ 0
  pub session_non_zero : rec.descriptor.session_id ≢ 0
  pub group_non_zero : rec.descriptor.operation_group_id ≢ some 0
  pub parented : (p : ℕ) → rec.descriptor.parent_operation_id ≡ some p → HasParent r rank rec p

-- The keys ascend, every operation is placed, and the ranks show that parents form no cycle.
pub record Inv (r : OperationRegistry) : Type 0 where
  pub ascends : Ascends r.operations
  pub rank : ℕ → ℕ
  pub placed : (k : ℕ) (rec : OperationRecord) → operation r k ≡ some rec → IsPlaced r rank k rec

pub new-Inv : Inv new
unfolding new get
new-Inv = record { ascends = tt; rank = λ k. 0; placed = λ k rec e. absurd (cc) }

-- An operation that the registry knows after the change was there before, with the same descriptor.
pub Evolves-back :
    (r r' : OperationRegistry) (k : ℕ) (rec' : OperationRecord)
    → Evolves r r'
    → operation r' k ≡ some rec'
    → (rec : OperationRecord) × (operation r k ≡ some rec) × (rec'.descriptor ≡ rec.descriptor)
Evolves-back r r' k rec' v e = elim (Option-cases (operation r k)) [
  | inl gone ↦ absurd (ground (arith, v.missing k gone))
  | inr (rec, found) ↦
      let (rec'', found', same, moves) = v.present k rec found in (rec, found, ground arith)
]

HasParent-Evolves :
    (r r' : OperationRegistry) (rank : ℕ → ℕ) (rec rec' : OperationRecord) (p : ℕ)
    → Evolves r r'
    → rec'.descriptor ≡ rec.descriptor
    → HasParent r rank rec p
    → HasParent r' rank rec' p
HasParent-Evolves r r' rank rec rec' p v same h =
    let (parent', found, kept, moves) = v.present p h.parent h.known in
    record {
      parent = parent';
      known = found;
      same_session =
          ap (λ d. d.session_id) kept ∙ h.same_session ∙ ap (λ d. d.session_id) (sym same);
      lower = subst (λ d. rank p < rank d.operation_id) (sym same) h.lower;
    }

-- A change that adds no operation keeps the invariant.
pub Evolves-Inv : (r r' : OperationRegistry) → Evolves r r' → Inv r → Inv r'
Evolves-Inv r r' v inv = record {
  ascends = v.ascends inv.ascends;
  rank = inv.rank;
  placed = λ k rec' e.
      let (rec, found, same) = Evolves-back r r' k rec' v e in
      let old : IsPlaced r inv.rank k rec = inv.placed k rec found in
      record {
        keyed = ap (λ d. d.operation_id) same ∙ old.keyed;
        operation_non_zero = old.operation_non_zero;
        session_non_zero = ground arith;
        group_non_zero = ground arith;
        parented = λ p h.
            HasParent-Evolves r r' inv.rank rec rec' p v same
              (old.parented p (ap (λ d. d.parent_operation_id) (sym same) ∙ h));
      };
}

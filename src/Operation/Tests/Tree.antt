-- ===== src/Operation/Tests/Tree.antt =====
-- The tree of operations that the tests use: 3 is below 2 and 2 below 1, and 2 has ended.
use nnrp_rs.Base.{arith, ℕ, ◌≡◌, refl, List, [], ◌∷◌, Option, none, some, subst}
use nnrp_rs.OperationState.{OperationState}
use nnrp_rs.Enums.CancelScope
use nnrp_rs.Operation.{OperationRecord, OperationRegistry, OperationDescriptor, new}
use nnrp_rs.Operation.Invariant.{Inv}
use nnrp_rs.Operation.Cancel.{OperationCancelRequest}
use nnrp_rs.Operation.History.{
  Event, registers, transitions, completes, expires, run, run-new_total,
}

abbrev pub descriptor : ℕ → Option ℕ → Option ℕ → OperationDescriptor
descriptor operation_id parent group = record {
  session_id = 42;
  operation_id = operation_id;
  parent_operation_id = parent;
  operation_group_id = group;
}

abbrev pub placed : ℕ → Option ℕ → Option ℕ → OperationState → OperationRecord
placed operation_id parent group state = record {
  descriptor = descriptor operation_id parent group;
  state = state;
  schedule = record {
    priority_class = 0;
    priority_delta = 0;
    deadline_unix_ms = 0;
    expire_at_unix_ms = 0;
    update_sequence = 0;
    flags = 0;
  };
}

abbrev pub tree : OperationRegistry
tree = record {
  operations =
      (1, placed 1 none (some 7) OperationState.running)
      ∷ (2, placed 2 (some 1) none OperationState.completed)
      ∷ (3, placed 3 (some 2) (some 7) OperationState.accepted)
      ∷ [];
}

abbrev pub tree_after_cancel : OperationRegistry
tree_after_cancel = record {
  operations =
      (1, placed 1 none (some 7) OperationState.cancelled)
      ∷ (2, placed 2 (some 1) none OperationState.completed)
      ∷ (3, placed 3 (some 2) (some 7) OperationState.cancelled)
      ∷ [];
}

abbrev pub events : List Event
events =
    registers (descriptor 1 none (some 7))
    ∷ transitions 1 OperationState.running
    ∷ registers (descriptor 2 (some 1) none)
    ∷ completes 2
    ∷ registers (descriptor 3 (some 2) (some 7))
    ∷ registers (descriptor 1 (some 3) none)
    ∷ expires 3 1000
    ∷ []

pub tree_built : run new events ≡ some tree
unfolding run new nnrp_rs.Operation.History.step nnrp_rs.Operation.Scheduling.expire_if_stale
    nnrp_rs.Base.Dict.get nnrp_rs.Operation.register nnrp_rs.Operation.check_registrable
    nnrp_rs.Operation.validate_descriptor_shape nnrp_rs.Base.Dict.contains_key
    nnrp_rs.Operation.complete nnrp_rs.Operation.transition nnrp_rs.Operation.check_parent
    nnrp_rs.Base.Dict.insert nnrp_rs.OperationState.can_transition_to
    nnrp_rs.Operation.accepted_record nnrp_rs.Base.Dict.set
tree_built = refl

pub tree-Inv : Inv tree
tree-Inv =
    let (r, e, inv) = run-new_total events in
    let same : r ≡ tree = ground (arith, tree_built) in subst Inv same inv

abbrev pub subtree_request : OperationCancelRequest
subtree_request = record { session_id = 42; operation_id = 1; cancel_scope = CancelScope.subtree }

-- ===== src/Operation/Tests.antt =====
-- A small tree of operations, and the theorems on the registry at it.
pub mod Tree
use nnrp_rs.Base.{◌≡◌, ◌⊎◌, refl, [], ◌∷◌, none, some, arith}
use nnrp_rs.Base.Dict.{get}
use nnrp_rs.Error.{NnrpError, ok, err}
use nnrp_rs.OperationState.{OperationState, is_terminal}
use nnrp_rs.Enums.CancelScope
use nnrp_rs.Enums.MessageType
use nnrp_rs.Enums.MessageType.{MessageType}
use nnrp_rs.Operation.{
  OperationRecord, OperationRegistry, OperationSchedule, new, operation, register, complete, put,
}
use nnrp_rs.Operation.Registration.{IsRegistrable, with_operation, register_lem}
use nnrp_rs.Operation.Invariant.{Inv}
use nnrp_rs.Operation.Completion.{CompleteOutcome, complete_lem}
use nnrp_rs.Operation.Scheduling.{SchedulingMetadata, expire_if_stale, apply_scheduling_update}
use nnrp_rs.Operation.Scheduling.Evolution.{ExpiryOutcome, expire_if_stale_lem}
use nnrp_rs.Operation.Scheduling.Updates.{
  IsScheduled, Asks, UpdateOutcome, apply_scheduling_update_lem,
}
use nnrp_rs.Operation.History.{run, run-new_total}
use nnrp_rs.Control.Semantics.{validate_scheduling_semantics}
use nnrp_rs.Operation.Scheduling.Validated.{validated_update_applies, expire_at_then_expires}
use Tree.{descriptor, placed, tree, events}

register_lem_example :
    (IsRegistrable tree (descriptor 4 (some 3) (some 7))
      × (register tree (descriptor 4 (some 3) (some 7))
          ≡ (with_operation tree (descriptor 4 (some 3) (some 7)), ok tt)))
    ⊎ ((¬ IsRegistrable tree (descriptor 4 (some 3) (some 7)))
        × ((e : NnrpError) × (register tree (descriptor 4 (some 3) (some 7)) ≡ (tree, err e))))
register_lem_example = register_lem tree (descriptor 4 (some 3) (some 7))

-- A parent that is not there.
orphan_refused :
    register tree (descriptor 4 (some 9) none) ≡ (tree, err (NnrpError.unknown_operation 9))
unfolding register nnrp_rs.Operation.check_registrable nnrp_rs.Operation.validate_descriptor_shape
    nnrp_rs.Base.Dict.contains_key nnrp_rs.Operation.check_parent get
orphan_refused = refl

run-new_total_example : (r : OperationRegistry) × (run new events ≡ some r) × Inv r
run-new_total_example = run-new_total events

found_3 : operation tree 3 ≡ some (placed 3 (some 2) (some 7) OperationState.accepted)
unfolding get
found_3 = refl

complete_lem_example :
    CompleteOutcome tree 3 (placed 3 (some 2) (some 7) OperationState.accepted) (complete tree 3)
complete_lem_example =
    complete_lem tree 3 (placed 3 (some 2) (some 7) OperationState.accepted) found_3

expire_if_stale_lem_example :
    ExpiryOutcome tree 3 1000
      (placed 3 (some 2) (some 7) OperationState.accepted)
      (expire_if_stale tree 3 1000)
expire_if_stale_lem_example =
    expire_if_stale_lem tree 3 1000 (placed 3 (some 2) (some 7) OperationState.accepted) found_3

abbrev update : SchedulingMetadata
update = record {
  operation_id = 3;
  control_sequence = 11;
  priority_class = 1;
  priority_delta = 0;
  deadline_unix_ms = 900;
  flags = 1;
}

update-IsScheduled : IsScheduled tree 42 update (placed 3 (some 2) (some 7) OperationState.accepted)
unfolding is_terminal
update-IsScheduled = record { found = found_3; same_session = refl; active = refl }

apply_scheduling_update_lem_example :
    (s : OperationSchedule) × Asks MessageType.expire_at update
      (placed 3 (some 2) (some 7) OperationState.accepted).schedule
      s
    × UpdateOutcome tree 3
        (placed 3 (some 2) (some 7) OperationState.accepted)
        MessageType.expire_at
        s
        (apply_scheduling_update tree 42 MessageType.expire_at update)
apply_scheduling_update_lem_example =
    apply_scheduling_update_lem tree 42 MessageType.expire_at update
      (placed 3 (some 2) (some 7) OperationState.accepted) update-IsScheduled

-- A message of another type fails, and the sequence number is stored.
numbered_all_the_same :
    operation (apply_scheduling_update tree 42 MessageType.ping update).0 3
    ≡ some (record (placed 3 (some 2) (some 7) OperationState.accepted) {
      schedule = record {
        priority_class = 0;
        priority_delta = 0;
        deadline_unix_ms = 0;
        expire_at_unix_ms = 0;
        update_sequence = 11;
        flags = 0;
      };
    })
unfolding apply_scheduling_update get is_terminal nnrp_rs.Base.Dict.set
numbered_all_the_same = refl

update_valid : validate_scheduling_semantics MessageType.expire_at update ≡ ok tt
unfolding validate_scheduling_semantics
update_valid = refl

abbrev expiring : OperationRecord
expiring = record (placed 3 (some 2) (some 7) OperationState.accepted) {
  schedule = record {
    priority_class = 0;
    priority_delta = 0;
    deadline_unix_ms = 0;
    expire_at_unix_ms = 900;
    update_sequence = 11;
    flags = 1;
  };
}

abbrev expiring_tree : OperationRegistry
expiring_tree = record {
  operations =
      (1, placed 1 none (some 7) OperationState.running)
      ∷ (2, placed 2 (some 1) none OperationState.completed)
      ∷ (3, expiring)
      ∷ [];
}

validated_update_applies_example :
    (s : OperationSchedule) × Asks MessageType.expire_at update
      (placed 3 (some 2) (some 7) OperationState.accepted).schedule
      s
    × (apply_scheduling_update tree 42 MessageType.expire_at update ≡ (
      put tree 3 (record (placed 3 (some 2) (some 7) OperationState.accepted) { schedule = s }),
      ok s,
    ))
validated_update_applies_example =
    validated_update_applies tree 42 MessageType.expire_at update
      (placed 3 (some 2) (some 7) OperationState.accepted) update_valid update-IsScheduled

updated_tree :
    apply_scheduling_update tree 42 MessageType.expire_at update
    ≡ (expiring_tree, ok expiring.schedule)
unfolding apply_scheduling_update get is_terminal nnrp_rs.Base.Dict.set
updated_tree = refl

expire_at_then_expires_example : expire_if_stale expiring_tree 3 900 ≡ (
  put expiring_tree 3 (record expiring { state = OperationState.superseded }),
  ok (some expiring.schedule),
)
expire_at_then_expires_example =
    expire_at_then_expires tree expiring_tree 42 900 update
      (placed 3 (some 2) (some 7) OperationState.accepted) expiring.schedule update-IsScheduled
      (λ e. omega arith) (λ e. cc) (omega arith) updated_tree

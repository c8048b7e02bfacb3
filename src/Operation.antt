-- ===== src/Operation.antt =====
-- crates/nnrp-core/src/operation.rs: the registry of the operations of a connection. A method that
-- takes `&mut self` returns the new registry and its result. An i16 is its bit pattern.
pub mod Scheduling
pub mod Invariant
pub mod Registration
pub mod Cancel
pub mod Evolution
pub mod Completion
pub mod History
mod Tests
use nnrp_rs.Base.{ℕ, ◌-◌, not, [], Option, none, some, ◌==◌, ◌!=◌, length, opt_eq}
use nnrp_rs.Base.Dict
use nnrp_rs.Base.Dict.{Dict}
use nnrp_rs.OperationState.{OperationState, is_terminal, can_transition_to}
use nnrp_rs.Error.{
  Result, ok, err, ◌>>=◌, ◌>>◌, reject_if, ok_or, unknown_operation, operation_already_exists,
  invalid_operation_relationship, invalid_operation_transition,
}

pub record OperationDescriptor : Type 0 where
  pub session_id : ℕ
  pub operation_id : ℕ
  pub parent_operation_id : Option ℕ
  pub operation_group_id : Option ℕ

pub record OperationSchedule : Type 0 where
  pub priority_class : ℕ
  pub priority_delta : ℕ
  pub deadline_unix_ms : ℕ
  pub expire_at_unix_ms : ℕ
  pub update_sequence : ℕ
  pub flags : ℕ

pub record OperationRecord : Type 0 where
  pub descriptor : OperationDescriptor
  pub state : OperationState
  pub schedule : OperationSchedule

pub record OperationRegistry : Type 0 where
  pub operations : Dict OperationRecord

pub new : OperationRegistry
new = record { operations = [] }

pub operation_count : OperationRegistry → ℕ
operation_count r = length r.operations

abbrev pub operation : OperationRegistry → ℕ → Option OperationRecord
operation r operation_id = Dict.get operation_id r.operations

pub new_descriptor : ℕ → ℕ → OperationDescriptor
new_descriptor session_id operation_id = record {
  session_id = session_id;
  operation_id = operation_id;
  parent_operation_id = none;
  operation_group_id = none;
}

default_schedule : OperationSchedule
default_schedule = record {
  priority_class = 0;
  priority_delta = 0;
  deadline_unix_ms = 0;
  expire_at_unix_ms = 0;
  update_sequence = 0;
  flags = 0;
}

-- What a method returns: the registry after the call, and the result.
abbrev pub Call : Type 0 → Type 0
Call A = OperationRegistry × Result A

-- The end of a method that assigns nothing before its last check.
abbrev pub commit : {A : Type 0} → OperationRegistry → Result (OperationRegistry × A) → Call A
commit r (ok (r', a)) = (r', ok a)
commit r (err e) = (r, err e)

-- An assignment to the record of an operation.
abbrev pub put : OperationRegistry → ℕ → OperationRecord → OperationRegistry
put r operation_id rec = record { operations = Dict.set operation_id rec r.operations }

pub validate_descriptor_shape : OperationDescriptor → Result (Unit {0})
validate_descriptor_shape d = do
  reject_if (d.session_id == 0)
      (invalid_operation_relationship "operation session_id must be non-zero")
  reject_if (d.operation_id == 0) (invalid_operation_relationship "operation_id must be non-zero")
  reject_if (opt_eq d.parent_operation_id (some d.operation_id))
      (invalid_operation_relationship "operation cannot be its own parent")
  reject_if (opt_eq d.operation_group_id (some 0))
      (invalid_operation_relationship "operation_group_id must be non-zero when present")

-- The `if let Some(parent_operation_id)` of `register`.
check_parent : OperationRegistry → OperationDescriptor → Option ℕ → Result (Unit {0})
check_parent r d none = ok tt
check_parent r d (some parent_operation_id) = do
  parent ← ok_or (operation r parent_operation_id) (unknown_operation parent_operation_id)
  reject_if (parent.descriptor.session_id != d.session_id)
      (invalid_operation_relationship "parent operation must belong to the same session")

-- The record that `register` inserts.
pub accepted_record : OperationDescriptor → OperationRecord
unfolding default_schedule
accepted_record d = record {
  descriptor = d;
  state = OperationState.accepted;
  schedule = default_schedule;
}

-- The checks of `register`.
check_registrable : OperationRegistry → OperationDescriptor → Result (Unit {0})
check_registrable r d = do
  validate_descriptor_shape d
  reject_if (Dict.contains_key d.operation_id r.operations)
      (operation_already_exists d.operation_id)
  check_parent r d d.parent_operation_id

pub register : OperationRegistry → OperationDescriptor → Call (Unit {0})
register r d = commit r (do
  check_registrable r d
  ok (record { operations = Dict.insert d.operation_id (accepted_record d) r.operations }, tt))

pub transition : OperationRegistry → ℕ → OperationState → Call (Unit {0})
transition r operation_id next_state = commit r (do
  rec ← ok_or (operation r operation_id) (unknown_operation operation_id)
  reject_if (not (can_transition_to rec.state next_state))
      (invalid_operation_transition rec.state next_state)
  ok (put r operation_id (record rec { state = next_state }), tt))

-- The first checks of `complete`.
check_active : OperationRegistry → ℕ → OperationState → Result OperationRecord
check_active r operation_id target = do
  rec ← ok_or (operation r operation_id) (unknown_operation operation_id)
  reject_if (is_terminal rec.state) (invalid_operation_transition rec.state target)
  ok rec

-- `complete` sets an accepted operation running before its last check.
start_running :
    OperationState → OperationRegistry → ℕ → OperationRecord → OperationRegistry × OperationRecord
start_running OperationState.accepted r operation_id rec =
    let rec' : OperationRecord = record rec { state = OperationState.running } in
    (put r operation_id rec', rec')
start_running _ r operation_id rec = (r, rec)

finish_complete : OperationRegistry → ℕ → OperationRecord → Call (Unit {0})
finish_complete r operation_id rec = commit r (do
  reject_if (not (can_transition_to rec.state OperationState.completed))
      (invalid_operation_transition rec.state OperationState.completed)
  ok (put r operation_id (record rec { state = OperationState.completed }), tt))

pub complete : OperationRegistry → ℕ → Call (Unit {0})
unfolding check_active start_running finish_complete
complete r operation_id = elim (check_active r operation_id OperationState.completed) [
  | err e ↦ (r, err e)
  | ok rec ↦
      let (r', rec') = start_running rec.state r operation_id rec in
      finish_complete r' operation_id rec'
]

pub abort : OperationRegistry → ℕ → Call (Unit {0})
abort r operation_id = commit r (do
  rec ← ok_or (operation r operation_id) (unknown_operation operation_id)
  reject_if (not (can_transition_to rec.state OperationState.failed))
      (invalid_operation_transition rec.state OperationState.failed)
  ok (put r operation_id (record rec { state = OperationState.failed }), tt))

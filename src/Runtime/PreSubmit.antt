-- ===== src/Runtime/PreSubmit.antt =====
-- crates/nnrp-runtime/src/pre_submit.rs: the deadlines that DEADLINE messages announce for frames that
-- are not submitted yet. A method that takes `&mut self` returns the new state and its result.
pub mod Invariant
pub mod Reserve
pub mod Take
pub mod History
mod Tests
use nnrp_rs.Base.{
  ℕ, Bool, false, [], List, ◌∷◌, ◌||◌, not, Option, none, some, ◌==◌, ◌!=◌, leb, length,
  if◌then◌else◌,
}
use nnrp_rs.Base.Dict
use nnrp_rs.Base.Dict.{Dict}
use nnrp_rs.Outcome.{Outcome, ok, err, reject_if, ◌>>◌}
use nnrp_rs.Control.Scheduling.{SchedulingMetadata}
use nnrp_rs.Runtime.{RuntimeError, unexpected_message}

pub record Reservation : Type 0 where
  pub frame_id : ℕ
  pub metadata : SchedulingMetadata

pub record PreSubmitDeadlineReservations : Type 0 where
  pub limit : ℕ
  pub by_operation : Dict Reservation
  pub by_frame : Dict ℕ

pub new : ℕ → PreSubmitDeadlineReservations
new max_in_flight_operations = record {
  limit = if leb max_in_flight_operations 1 then 1 else max_in_flight_operations;
  by_operation = [];
  by_frame = [];
}

-- `metadata.deadline_unix_ms <= now_unix_ms`.
abbrev pub is_expired : ℕ → Reservation → Bool
is_expired now_unix_ms reservation = leb reservation.metadata.deadline_unix_ms now_unix_ms

-- The `any` of `reject_expired`.
pub any_expired : ℕ → Dict Reservation → Bool
any_expired now_unix_ms [] = false
any_expired now_unix_ms ((k, reservation) ∷ rest) =
    is_expired now_unix_ms reservation || any_expired now_unix_ms rest

pub reject_expired : PreSubmitDeadlineReservations → ℕ → Outcome RuntimeError (Unit {0})
reject_expired s now_unix_ms =
    reject_if (any_expired now_unix_ms s.by_operation)
      (unexpected_message "pre-submit DEADLINE expired before FRAME_SUBMIT")

-- What a method returns: the reservations after the call, and the result.
abbrev pub Call : Type 0 → Type 0
Call A = PreSubmitDeadlineReservations × Outcome RuntimeError A

-- The checks of `reserve`.
pub check_reserve :
    PreSubmitDeadlineReservations → ℕ → SchedulingMetadata → ℕ → Outcome RuntimeError (Unit {0})
unfolding reject_expired
check_reserve s frame_id metadata now_unix_ms = do
  reject_expired s now_unix_ms
  reject_if (frame_id == 0 || metadata.operation_id == 0)
      (unexpected_message "pre-submit DEADLINE requires non-zero operation and frame ids")
  reject_if (leb metadata.deadline_unix_ms now_unix_ms)
      (unexpected_message "pre-submit DEADLINE is already expired")
  reject_if
      (Dict.contains_key metadata.operation_id s.by_operation
        || Dict.contains_key frame_id s.by_frame)
      (unexpected_message "pre-submit DEADLINE reservation is duplicated")
  reject_if (leb s.limit (length s.by_operation))
      (unexpected_message "pre-submit DEADLINE reservation limit exceeded")

-- The state after a successful `reserve`.
pub with_reservation :
    PreSubmitDeadlineReservations → ℕ → SchedulingMetadata → PreSubmitDeadlineReservations
with_reservation s frame_id metadata = record s {
  by_operation =
      Dict.insert metadata.operation_id (record { frame_id = frame_id; metadata = metadata })
        s.by_operation;
  by_frame = Dict.insert frame_id metadata.operation_id s.by_frame;
}

pub reserve : PreSubmitDeadlineReservations → ℕ → SchedulingMetadata → ℕ → Call (Unit {0})
reserve s frame_id metadata now_unix_ms = elim (check_reserve s frame_id metadata now_unix_ms) [
  | err e ↦ (s, err e)
  | ok _ ↦ (with_reservation s frame_id metadata, ok tt)
]

-- The state after `remove_operation` of an operation that is reserved.
pub without : PreSubmitDeadlineReservations → ℕ → Reservation → PreSubmitDeadlineReservations
without s operation_id reservation = record s {
  by_operation = Dict.remove operation_id s.by_operation;
  by_frame = Dict.remove reservation.frame_id s.by_frame;
}

pub remove_operation :
    PreSubmitDeadlineReservations → ℕ → PreSubmitDeadlineReservations × Option Reservation
unfolding without
remove_operation s operation_id = elim (Dict.get operation_id s.by_operation) [
  | none ↦ (s, none)
  | some reservation ↦ (without s operation_id reservation, some reservation)
]

-- The second half of `take_for_submit`, where the operation has no reservation.
take_by_frame : PreSubmitDeadlineReservations → ℕ → Call (Option SchedulingMetadata)
unfolding remove_operation
take_by_frame s frame_id = elim (Dict.get frame_id s.by_frame) [
  | none ↦ (s, ok none)
  | some reserved_operation_id ↦ (
    (remove_operation s reserved_operation_id).0,
    err (unexpected_message "FRAME_SUBMIT does not match its pre-submit DEADLINE operation id"),
  )
]

-- The body of the `if let Some(reservation)` of `take_for_submit`.
take_reserved : Reservation → ℕ → Outcome RuntimeError (Option SchedulingMetadata)
take_reserved reservation frame_id =
    if reservation.frame_id != frame_id
    then err (unexpected_message "FRAME_SUBMIT does not match its pre-submit DEADLINE frame id")
    else ok (some reservation.metadata)

-- What `take_for_submit` does with the answer of `remove_operation`.
after_remove :
    ℕ → PreSubmitDeadlineReservations × Option Reservation → Call (Option SchedulingMetadata)
unfolding take_by_frame take_reserved
after_remove frame_id (s, some reservation) = (s, take_reserved reservation frame_id)
after_remove frame_id (s, none) = take_by_frame s frame_id

pub take_for_submit : PreSubmitDeadlineReservations → ℕ → ℕ → ℕ → Call (Option SchedulingMetadata)
unfolding reject_expired remove_operation after_remove
take_for_submit s operation_id frame_id now_unix_ms = elim (reject_expired s now_unix_ms) [
  | err e ↦ (s, err e)
  | ok _ ↦ after_remove frame_id (remove_operation s operation_id)
]

pub discard : PreSubmitDeadlineReservations → ℕ → ℕ → PreSubmitDeadlineReservations
unfolding remove_operation
discard s operation_id frame_id = elim (Dict.get operation_id s.by_operation) [
  | none ↦ s
  | some reservation ↦
      if reservation.frame_id == frame_id then (remove_operation s operation_id).0 else s
]

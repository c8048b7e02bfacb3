-- ===== src/Runtime/PreSubmit/Reserve.antt =====
-- PreSubmitDeadlineReservations::reserve: when it adds a reservation, and that it keeps the invariant.
use nnrp_rs.Base.{
  ℕ, ◌<◌, ◌≡◌, ◌≢◌, ◌⊎◌, inl, inr, none, some, arith, if◌then◌else◌, ◌==◌, length, Bool-cases,
}
use nnrp_rs.Base.Dict.{Above-insert, get-insert, contains_key_iff, length-insert}
use nnrp_rs.Outcome.{ok, err, Outcome-cases}
use nnrp_rs.Control.Scheduling.{SchedulingMetadata}
use nnrp_rs.Runtime.{RuntimeError}
use nnrp_rs.Runtime.PreSubmit.{
  PreSubmitDeadlineReservations, check_reserve, with_reservation, reserve,
}
use nnrp_rs.Runtime.PreSubmit.Invariant.{Inv, IsLive, reserved, holder, reject_expired_iff}

-- What `reserve` asks of an announced deadline.
pub record IsReservable (s : PreSubmitDeadlineReservations) (frame_id : ℕ)
    (metadata : SchedulingMetadata) (now : ℕ) : Type 0 where
  pub live : IsLive s now
  pub frame_non_zero : frame_id ≢ 0
  pub operation_non_zero : metadata.operation_id ≢ 0
  pub ahead : now < metadata.deadline_unix_ms
  pub new_operation : reserved s metadata.operation_id ≡ none
  pub new_frame : holder s frame_id ≡ none
  pub room : length s.by_operation < s.limit

module _ (s : PreSubmitDeadlineReservations) (f : ℕ) (m : SchedulingMetadata) where
  check_reserve_sound : (now : ℕ) → Inv s → check_reserve s f m now ≡ ok tt → IsReservable s f m now
  unfolding check_reserve
  check_reserve_sound now inv e =
      let a = contains_key_iff m.operation_id s.by_operation in
      let b = contains_key_iff f s.by_frame in
      record {
        live = (reject_expired_iff s now inv).0 (ground arith);
        frame_non_zero = ground arith;
        operation_non_zero = ground arith;
        ahead = ground arith;
        new_operation = ground arith;
        new_frame = ground arith;
        room = ground arith;
      }

  check_reserve_complete :
      (now : ℕ) → Inv s → IsReservable s f m now → check_reserve s f m now ≡ ok tt
  unfolding check_reserve
  check_reserve_complete now inv q =
      let a = contains_key_iff m.operation_id s.by_operation in
      let b = contains_key_iff f s.by_frame in
      let live = (reject_expired_iff s now inv).1 q.live in
      let c = q.frame_non_zero in
      let d = q.operation_non_zero in
      let e = q.ahead in
      let g = q.new_operation in let h = q.new_frame in let i = q.room in ground arith

  -- `reserve` succeeds exactly on a reservable deadline, and then records it under its operation and
  -- its frame; otherwise it fails and changes nothing.
  pub reserve_lem :
      (now : ℕ)
      → Inv s
      → (IsReservable s f m now × (reserve s f m now ≡ (with_reservation s f m, ok tt)))
        ⊎ ((¬ IsReservable s f m now) × ((e : RuntimeError) × (reserve s f m now ≡ (s, err e))))
  unfolding reserve
  reserve_lem now inv = elim (Outcome-cases (check_reserve s f m now)) [
    | inl (u, e) ↦ inl (check_reserve_sound now inv e, rw (e, reserve))
    | inr (x, e) ↦
        inr ((λ q. absurd (ground (arith, check_reserve_complete now inv q))), (x, rw (e, reserve)))
  ]

  pub reserved-with_reservation :
      (o : ℕ)
      → reserved (with_reservation s f m) o ≡ (
          if m.operation_id == o
          then some (record { frame_id = f; metadata = m })
          else reserved s o)
  unfolding with_reservation
  reserved-with_reservation o = get-insert o m.operation_id _ s.by_operation

  pub holder-with_reservation :
      (g : ℕ)
      → holder (with_reservation s f m) g ≡ (if f == g then some m.operation_id else holder s g)
  unfolding with_reservation
  holder-with_reservation g = get-insert g f m.operation_id s.by_frame

  pub with_reservation-Inv :
      {now : ℕ} → Inv s → IsReservable s f m now → Inv (with_reservation s f m)
  unfolding with_reservation
  with_reservation-Inv inv q = record {
    ascends = Above-insert 0 m.operation_id _ s.by_operation (omega arith) inv.ascends;
    frames_ascend = Above-insert 0 f m.operation_id s.by_frame (omega arith) inv.frames_ascend;
    framed = λ o r e.
        let a = reserved-with_reservation o in
        let b = holder-with_reservation r.frame_id in
        let c = q.new_frame in
        elim (Bool-cases (m.operation_id == o)) [
          | inl hit ↦ ground arith
          | inr miss ↦ let old = inv.framed o r (ground arith) in ground arith
        ];
    held = λ g o e.
        let b = holder-with_reservation g in
        elim (Bool-cases (f == g)) [
          | inl hit ↦
              let a = reserved-with_reservation o in
              (record { frame_id = f; metadata = m }, ground arith, ground arith)
          | inr miss ↦
              let (r, found, framed) = inv.held g o (ground arith) in
              let a = reserved-with_reservation o in
              let c = q.new_operation in (r, ground arith, framed)
        ];
    within =
        let longer =
          length-insert m.operation_id (record { frame_id = f; metadata = m }) s.by_operation
            q.new_operation in
        omega (arith, q.room);
  }

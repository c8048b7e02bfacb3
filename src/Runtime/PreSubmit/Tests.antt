-- ===== src/Runtime/PreSubmit/Tests.antt =====
-- Runs of the reservations on concrete values, as the tests of the source.
use nnrp_rs.Base.{
  ℕ, List, [], ◌∷◌, ◌≤◌, ◌≡◌, refl, none, some, arith, if◌then◌else◌, ◌==◌, length, ◌⊎◌, inl, inr,
}
use nnrp_rs.Outcome.{ok, err}
use nnrp_rs.Control.Scheduling.{SchedulingMetadata}
use nnrp_rs.Runtime.{unexpected_message, RuntimeError}
use nnrp_rs.Runtime.PreSubmit.{
  PreSubmitDeadlineReservations, new, reserve, take_for_submit, with_reservation, without,
  Reservation,
}
use nnrp_rs.Runtime.PreSubmit.Invariant.{Inv, IsLive, reserved, holder}
use nnrp_rs.Runtime.PreSubmit.Reserve.{IsReservable, reserve_lem}
use nnrp_rs.Runtime.PreSubmit.Take.{Taken, take_for_submit_lem, take_once}
use nnrp_rs.Runtime.PreSubmit.History.{
  Request, reserving, submitting, discarding, run, reserve_take, reserve_take_lem,
  run-new_consistent,
}

abbrev deadline : ℕ → ℕ → SchedulingMetadata
deadline operation_id deadline_unix_ms = record {
  operation_id = operation_id;
  control_sequence = operation_id;
  priority_class = 0;
  priority_delta = 0;
  deadline_unix_ms = deadline_unix_ms;
  flags = 0;
}

abbrev one_reserved : PreSubmitDeadlineReservations
one_reserved = record {
  limit = 2;
  by_operation = (11, record { frame_id = 7; metadata = deadline 11 2000 }) ∷ [];
  by_frame = (7, 11) ∷ [];
}

reserve_then_submit :
    take_for_submit (reserve (new 2) 7 (deadline 11 2000) 1000).0 11 7 1001
    ≡ (new 2, ok (some (deadline 11 2000)))
unfolding reserve take_for_submit new nnrp_rs.Runtime.PreSubmit.any_expired
    nnrp_rs.Runtime.PreSubmit.check_reserve nnrp_rs.Base.Dict.contains_key with_reservation
    nnrp_rs.Base.Dict.insert nnrp_rs.Base.Dict.get nnrp_rs.Base.Dict.remove
reserve_then_submit = refl

over_capacity :
    (reserve (reserve (new 1) 7 (deadline 11 2000) 1000).0 8 (deadline 12 2100) 1000).1
    ≡ err (unexpected_message "pre-submit DEADLINE reservation limit exceeded")
unfolding reserve new nnrp_rs.Runtime.PreSubmit.check_reserve nnrp_rs.Runtime.PreSubmit.any_expired
    nnrp_rs.Base.Dict.contains_key with_reservation nnrp_rs.Base.Dict.insert
over_capacity = refl

mismatch_consumes : take_for_submit one_reserved 12 7 1001 ≡ (
  new 2,
  err (unexpected_message "FRAME_SUBMIT does not match its pre-submit DEADLINE operation id"),
)
unfolding take_for_submit new nnrp_rs.Runtime.PreSubmit.any_expired nnrp_rs.Base.Dict.get
    nnrp_rs.Base.Dict.remove
mismatch_consumes = refl

one_reserved-Inv : Inv one_reserved
unfolding nnrp_rs.Base.Dict.get
one_reserved-Inv = record {
  ascends = omega arith;
  frames_ascend = omega arith;
  framed = λ o r e. (ground arith, ground arith);
  held =
      λ f o e. (record { frame_id = 7; metadata = deadline 11 2000 }, ground arith, ground arith);
  within = omega arith;
}

one_reserved-IsLive : IsLive one_reserved 1500
unfolding nnrp_rs.Base.Dict.get
one_reserved-IsLive o r e = ground arith

second-IsReservable : IsReservable one_reserved 8 (deadline 12 2100) 1500
unfolding nnrp_rs.Base.Dict.get
second-IsReservable = record {
  live = one_reserved-IsLive;
  frame_non_zero = ground arith;
  operation_non_zero = ground arith;
  ahead = omega arith;
  new_operation = refl;
  new_frame = refl;
  room = omega arith;
}

reserve_lem_example :
    (IsReservable one_reserved 8 (deadline 12 2100) 1500
      × (reserve one_reserved 8 (deadline 12 2100) 1500
          ≡ (with_reservation one_reserved 8 (deadline 12 2100), ok tt)))
    ⊎ ((¬ IsReservable one_reserved 8 (deadline 12 2100) 1500)
        × ((e : RuntimeError) × (reserve one_reserved 8 (deadline 12 2100) 1500
              ≡ (one_reserved, err e))))
reserve_lem_example = reserve_lem one_reserved 8 (deadline 12 2100) 1500 one_reserved-Inv

take_for_submit_lem_example :
    Taken one_reserved 11 7 1500
      (take_for_submit one_reserved 11 7 1500).0
      (take_for_submit one_reserved 11 7 1500).1
take_for_submit_lem_example = take_for_submit_lem one_reserved 11 7 1500 one_reserved-Inv

emptied : take_for_submit one_reserved 11 7 1500 ≡ (new 2, ok (some (deadline 11 2000)))
unfolding take_for_submit new nnrp_rs.Runtime.PreSubmit.any_expired nnrp_rs.Base.Dict.get
    nnrp_rs.Base.Dict.remove
emptied = refl

new-IsLive : IsLive (new 2) 1600
unfolding new nnrp_rs.Base.Dict.get
new-IsLive o r e = absurd (cc)

submitted_twice : take_for_submit (new 2) 11 7 1600 ≡ (new 2, ok none)
submitted_twice =
    take_once one_reserved (new 2) 11 7 1500 1600 (deadline 11 2000) one_reserved-Inv emptied
      new-IsLive

both-IsLive : IsLive (with_reservation one_reserved 8 (deadline 12 2100)) 1600
unfolding with_reservation nnrp_rs.Base.Dict.get nnrp_rs.Base.Dict.insert
both-IsLive o r e = ground arith

reserve_take_lem_example :
    ((reserve_take one_reserved 8 (deadline 12 2100) 1500 1600).1 ≡ ok (some (deadline 12 2100)))
    × ((o : ℕ)
        → reserved (reserve_take one_reserved 8 (deadline 12 2100) 1500 1600).0 o
          ≡ reserved one_reserved o)
    × ((g : ℕ)
        → holder (reserve_take one_reserved 8 (deadline 12 2100) 1500 1600).0 g
          ≡ holder one_reserved g)
reserve_take_lem_example =
    reserve_take_lem one_reserved 8 1500 (deadline 12 2100) one_reserved-Inv 1600
      second-IsReservable both-IsLive

abbrev some_calls : List Request
some_calls =
    reserving 7 (deadline 11 2000) 1000
    ∷ submitting 12 7 1001
    ∷ reserving 8 (deadline 12 2100) 1002
    ∷ discarding 12 8
    ∷ []

run-new_consistent_example :
    Inv (run some_calls (new 2))
    × (length (run some_calls (new 2)).by_operation ≤ (if 2 == 0 then 1 else 2))
run-new_consistent_example = run-new_consistent 2 some_calls

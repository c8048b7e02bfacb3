-- ===== src/Runtime/PreSubmit/History.antt =====
-- Reservations over several calls: a reservation and its submission, and any sequence of calls.
use nnrp_rs.Base.{
  ℕ, List, [], ◌∷◌, ◌≤◌, ◌≡◌, refl, some, arith, if◌then◌else◌, ◌==◌, length, inr, inl, Bool-cases,
  Option-cases, Option, sym, subst, ◌∙◌,
}
use nnrp_rs.Outcome.{ok}
use nnrp_rs.Control.Scheduling.{SchedulingMetadata}
use nnrp_rs.Runtime.PreSubmit.{
  Call, PreSubmitDeadlineReservations, Reservation, new, reserve, take_for_submit, discard,
  with_reservation, without, after_remove, take_by_frame, remove_operation,
}
use nnrp_rs.Runtime.PreSubmit.Invariant.{
  Inv, IsLive, reserved, holder, new-Inv, reserved-without, without-Inv, holder-without,
}
use nnrp_rs.Runtime.PreSubmit.Reserve.{
  IsReservable, reserve_lem, with_reservation-Inv, reserved-with_reservation,
  holder-with_reservation,
}
use nnrp_rs.Runtime.PreSubmit.Take.{
  take-matched, take_for_submit_lem, Taken-Inv, remove_operation-some,
}

-- A reservation, and the submission of the frame that it announced.
abbrev pub reserve_take :
    PreSubmitDeadlineReservations
    → ℕ
    → SchedulingMetadata
    → ℕ
    → ℕ
    → Call (Option SchedulingMetadata)
reserve_take s f m now later = take_for_submit (reserve s f m now).0 m.operation_id f later

module _ (s : PreSubmitDeadlineReservations) (f now : ℕ) (m : SchedulingMetadata)
    (inv : Inv s) where
  reserve-eq : IsReservable s f m now → reserve s f m now ≡ (with_reservation s f m, ok tt)
  reserve-eq q = elim (reserve_lem s f m now inv) [ inl (r, e) ↦ e | inr (r, e) ↦ absurd (r q) ]

  reserve-Inv : Inv (reserve s f m now).0
  reserve-Inv = elim (reserve_lem s f m now inv) [
    | inl (r, e) ↦
        subst (λ (c : Call (Unit {0})). Inv c.0) (sym e) (with_reservation-Inv s f m inv r)
    | inr (r, (x, e)) ↦ subst (λ (c : Call (Unit {0})). Inv c.0) (sym e) inv
  ]

  abbrev announced : Reservation
  announced = record { frame_id = f; metadata = m }

  reserve_take-eq :
      (later : ℕ)
      → IsReservable s f m now
      → IsLive (with_reservation s f m) later
      → reserve_take s f m now later
        ≡ (without (with_reservation s f m) m.operation_id announced, ok (some m))
  reserve_take-eq later q live =
      let found = reserved-with_reservation s f m m.operation_id in
      rw (reserve-eq q) (
        take-matched (with_reservation s f m) m.operation_id f later announced
          (with_reservation-Inv s f m inv q) live (ground arith) refl)

  -- A deadline that was reserved is handed to the submission of its operation in its frame, if nothing
  -- has expired by then, and afterwards both indexes read as before the reservation.
  pub reserve_take_lem :
      (later : ℕ)
      → IsReservable s f m now
      → IsLive (with_reservation s f m) later
      → ((reserve_take s f m now later).1 ≡ ok (some m))
        × ((o : ℕ) → reserved (reserve_take s f m now later).0 o ≡ reserved s o)
        × ((g : ℕ) → holder (reserve_take s f m now later).0 g ≡ holder s g)
  reserve_take_lem later q live =
      let e = reserve_take-eq later q live in
      let inv' = with_reservation-Inv s f m inv q in
      let s' = with_reservation s f m in
      rw e (
        refl,
        λ o.
            let a = reserved-with_reservation s f m o in
            let b = reserved-without s' m.operation_id o announced inv' in
            let c = q.new_operation in ground arith,
        λ g.
            let a = holder-with_reservation s f m g in
            let b = holder-without s' m.operation_id g announced inv' in
            let c = q.new_frame in ground arith,
      )

-- One call on the reservations.
pub data Request : Type 0 where
  reserving : (frame_id : ℕ) → SchedulingMetadata → (now : ℕ) → Request
  submitting : (operation_id frame_id now : ℕ) → Request
  discarding : (operation_id frame_id : ℕ) → Request

pub step : PreSubmitDeadlineReservations → Request → PreSubmitDeadlineReservations
step s (reserving f m now) = (reserve s f m now).0
step s (submitting o f now) = (take_for_submit s o f now).0
step s (discarding o f) = discard s o f

pub run : List Request → PreSubmitDeadlineReservations → PreSubmitDeadlineReservations
unfolding step
run [] s = s
run (r ∷ rs) s = run rs (step s r)

discard-Inv : (s : PreSubmitDeadlineReservations) (o f : ℕ) → Inv s → Inv (discard s o f)
unfolding discard
discard-Inv s o f inv = elim (Option-cases (reserved s o)) [
  | inl free ↦ rw (free, discard) inv
  | inr (r, found) ↦
      rw (found, discard)
        (elim (Bool-cases (r.frame_id == f)) [
          | inl same ↦ rw (same, remove_operation-some s o found) (without-Inv s o r inv found)
          | inr other ↦ rw other inv
        ])
]

step-Inv : (s : PreSubmitDeadlineReservations) (r : Request) → Inv s → Inv (step s r)
unfolding step
step-Inv s (reserving f m now) inv = reserve-Inv s f now m inv
step-Inv s (submitting o f now) inv = Taken-Inv s o f now inv (take_for_submit_lem s o f now inv)
step-Inv s (discarding o f) inv = discard-Inv s o f inv

run-Inv : (rs : List Request) (s : PreSubmitDeadlineReservations) → Inv s → Inv (run rs s)
unfolding run
run-Inv [] s inv = inv
run-Inv (r ∷ rs) s inv = run-Inv rs (step s r) (step-Inv s r inv)

step-limit : (s : PreSubmitDeadlineReservations) (r : Request) → (step s r).limit ≡ s.limit
unfolding step reserve take_for_submit after_remove take_by_frame remove_operation without discard
    with_reservation
step-limit s (reserving f m now) = ground arith
step-limit s (submitting o f now) = ground arith
step-limit s (discarding o f) = ground arith

run-limit : (rs : List Request) (s : PreSubmitDeadlineReservations) → (run rs s).limit ≡ s.limit
unfolding run
run-limit [] s = refl
run-limit (r ∷ rs) s = run-limit rs (step s r) ∙ step-limit s r

-- After any calls, failed ones included, the two indexes agree on which operation holds which frame,
-- every deadline is stored under its own operation, and there are no more reservations than the
-- operations that the session allows in flight, or one where it allows none.
pub run-new_consistent :
    (n : ℕ) (rs : List Request)
    → Inv (run rs (new n)) × (length (run rs (new n)).by_operation ≤ (if n == 0 then 1 else n))
unfolding new
run-new_consistent n rs =
    let inv = run-Inv rs (new n) (new-Inv n) in
    let limit = run-limit rs (new n) in (inv, ground (arith, inv.within))

-- ===== src/Runtime/PreSubmit/Take.antt =====
-- PreSubmitDeadlineReservations::take_for_submit and discard, against what they promise.
use nnrp_rs.Base.{
  ℕ, ◌≡◌, ◌≢◌, inl, inr, Option, none, some, arith, ◌==◌, Bool-cases, Option-cases, ap, subst,
}
use nnrp_rs.Outcome.{Outcome, ok, err, Outcome-cases}
use nnrp_rs.Control.Scheduling.{SchedulingMetadata}
use nnrp_rs.Runtime.{RuntimeError}
use nnrp_rs.Runtime.PreSubmit.{
  PreSubmitDeadlineReservations, Reservation, reject_expired, remove_operation, without,
  after_remove, take_by_frame, take_reserved, take_for_submit,
}
use nnrp_rs.Runtime.PreSubmit.Invariant.{
  Inv, IsLive, reserved, holder, reject_expired_iff, without-Inv, reserved-without, holder-without,
}

-- What a frame submission for operation `o` in frame `f` may do with the reservations, and what it is
-- answered.
pub data Taken (s : PreSubmitDeadlineReservations) (o f now : ℕ)
    : PreSubmitDeadlineReservations
      → Outcome RuntimeError (Option SchedulingMetadata)
      → Type 0 where
  -- Some reservation has expired.
  late : (¬ IsLive s now) → (e : RuntimeError) → Taken s o f now s (err e)
  -- The operation is reserved in this frame: its deadline is used up.
  matched :
      (r : Reservation)
      → IsLive s now
      → reserved s o ≡ some r
      → r.frame_id ≡ f
      → Taken s o f now (without s o r) (ok (some r.metadata))
  -- The operation is reserved in another frame.
  wrong_frame :
      (r : Reservation)
      → IsLive s now
      → reserved s o ≡ some r
      → r.frame_id ≢ f
      → (e : RuntimeError) → Taken s o f now (without s o r) (err e)
  -- Another operation has the frame.
  wrong_operation :
      (holding : ℕ) (r : Reservation)
      → IsLive s now
      → reserved s o ≡ none
      → holder s f ≡ some holding
      → reserved s holding ≡ some r
      → (e : RuntimeError) → Taken s o f now (without s holding r) (err e)
  unannounced : IsLive s now → reserved s o ≡ none → holder s f ≡ none → Taken s o f now s (ok none)

pub remove_operation-some :
    (s : PreSubmitDeadlineReservations) (o : ℕ) {r : Reservation}
    → reserved s o ≡ some r
    → remove_operation s o ≡ (without s o r, some r)
unfolding remove_operation
remove_operation-some s o e = rw (e, remove_operation)

pub remove_operation-none :
    (s : PreSubmitDeadlineReservations) (o : ℕ)
    → reserved s o ≡ none
    → remove_operation s o ≡ (s, none)
unfolding remove_operation
remove_operation-none s o e = rw (e, remove_operation)

module _ (s : PreSubmitDeadlineReservations) (o f now : ℕ) (inv : Inv s) where
  abbrev Takes :
      PreSubmitDeadlineReservations × Outcome RuntimeError (Option SchedulingMetadata) → Type 0
  Takes call = Taken s o f now call.0 call.1

  take_by_frame-Takes : IsLive s now → reserved s o ≡ none → Takes (take_by_frame s f)
  unfolding take_by_frame
  take_by_frame-Takes live free = elim (Option-cases (holder s f)) [
    | inl unheld ↦ rw (unheld, take_by_frame) (unannounced live free unheld)
    | inr (p, holds) ↦
        let (r, found, framed) = inv.held f p holds in
        let removed = remove_operation-some s p found in
        rw (holds, take_by_frame) (rw removed (wrong_operation p r live free holds found _))
  ]

  after_remove-Takes : IsLive s now → Takes (after_remove f (remove_operation s o))
  unfolding after_remove take_reserved
  after_remove-Takes live = elim (Option-cases (reserved s o)) [
    | inl free ↦ rw (remove_operation-none s o free) (take_by_frame-Takes live free)
    | inr (r, found) ↦ rw (remove_operation-some s o found) (elim (Bool-cases (r.frame_id == f)) [
      | inl same ↦ rw same (matched r live found (ground arith))
      | inr other ↦ rw other (wrong_frame r live found (ground arith) _)
    ])
  ]

  -- On consistent reservations `take_for_submit` does what `Taken` says. If a deadline has expired it
  -- fails and changes nothing. Otherwise the reservation of the operation is given up, and its metadata
  -- is the answer if it is for this frame and an error is if it is not; where the operation has none,
  -- a reservation that another operation has for this frame is given up with an error; and where there
  -- is neither, nothing changes and there is no metadata.
  pub take_for_submit_lem :
      Taken s o f now (take_for_submit s o f now).0 (take_for_submit s o f now).1
  unfolding take_for_submit
  take_for_submit_lem = elim (Outcome-cases (reject_expired s now)) [
    | inl (u, e) ↦ rw (e, take_for_submit) (after_remove-Takes ((reject_expired_iff s now inv).0 e))
    | inr (x, e) ↦
        rw (e, take_for_submit)
          (late (λ live. absurd (ground (arith, (reject_expired_iff s now inv).1 live))) x)
  ]

module _ (s : PreSubmitDeadlineReservations) (o f now : ℕ) where
  pub take-matched :
      (r : Reservation)
      → Inv s
      → IsLive s now
      → reserved s o ≡ some r
      → r.frame_id ≡ f
      → take_for_submit s o f now ≡ (without s o r, ok (some r.metadata))
  unfolding take_for_submit after_remove take_reserved
  take-matched r inv live found same =
      let quiet = (reject_expired_iff s now inv).1 live in
      let removed = remove_operation-some s o found in
      rw (quiet, take_for_submit) (rw removed (ground arith))

  take-unannounced :
      Inv s
      → IsLive s now
      → reserved s o ≡ none
      → holder s f ≡ none
      → take_for_submit s o f now ≡ (s, ok none)
  unfolding take_for_submit after_remove take_by_frame
  take-unannounced inv live free unheld =
      let quiet = (reject_expired_iff s now inv).1 live in
      let removed = remove_operation-none s o free in
      rw (quiet, take_for_submit) (rw removed (rw (unheld, take_by_frame)))

  pub Taken-Inv :
      {s' : PreSubmitDeadlineReservations} {a : Outcome RuntimeError (Option SchedulingMetadata)}
      → Inv s
      → Taken s o f now s' a
      → Inv s'
  Taken-Inv inv (late stale e) = inv
  Taken-Inv inv (matched r live found same) = without-Inv s o r inv found
  Taken-Inv inv (wrong_frame r live found other e) = without-Inv s o r inv found
  Taken-Inv inv (wrong_operation p r live free holds found e) = without-Inv s p r inv found
  Taken-Inv inv (unannounced live free unheld) = inv

  -- What is left after a deadline has been used up.
  Taken-some :
      {s' : PreSubmitDeadlineReservations} {m : SchedulingMetadata}
      (a : Outcome RuntimeError (Option SchedulingMetadata))
      → Inv s
      → Taken s o f now s' a
      → a ≡ ok (some m)
      → (reserved s' o ≡ none) × (holder s' f ≡ none)
  Taken-some a inv (late stale e) same = absurd (cc)
  Taken-some a inv (matched r live found framed) same =
      let g = reserved-without s o o r inv in
      let h = holder-without s o f r inv in (ground arith, ground arith)
  Taken-some a inv (wrong_frame r live found other e) same = absurd (cc)
  Taken-some a inv (wrong_operation p r live free holds found e) same = absurd (cc)
  Taken-some a inv (unannounced live free unheld) same = absurd (cc)

-- A deadline is used up at most once: after a submission that was given one, the same submission is
-- given none as long as nothing is reserved anew and no other reservation expires.
pub take_once :
    (s s' : PreSubmitDeadlineReservations) (o f now later : ℕ) (m : SchedulingMetadata)
    → Inv s
    → take_for_submit s o f now ≡ (s', ok (some m))
    → IsLive s' later
    → take_for_submit s' o f later ≡ (s', ok none)
take_once s s' o f now later m inv e live =
    let t = take_for_submit_lem s o f now inv in
    let left = Taken-some s o f now _ inv t (ap (λ c. c.1) e) in
    let kept = Taken-Inv s o f now inv t in
    let after : (take_for_submit s o f now).0 ≡ s' = ap (λ c. c.0) e in
    take-unannounced s' o f later (subst Inv after kept) live
      (subst (λ x. reserved x o ≡ none) after left.0) (subst (λ x. holder x f ≡ none) after left.1)

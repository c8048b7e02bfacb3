-- ===== src/Runtime/PreSubmit/Invariant.antt =====
-- The invariant of the reservations: the two indexes agree, and their number stays in the limit.
use nnrp_rs.Base.{
  ℕ, ◌≤◌, ◌≡◌, refl, Option, some, arith, length, ◌<◌, false, ◌↔◌, [], ◌∷◌, if◌then◌else◌, none,
  suc, ◌==◌,
}
use nnrp_rs.Base.Dict.{
  get, Ascends, Dict, Above-remove, Above, length-remove_le, Above-get, get-remove,
}
use nnrp_rs.Runtime.PreSubmit.{
  PreSubmitDeadlineReservations, Reservation, new, any_expired, reject_expired, without, ok,
}

abbrev pub reserved : PreSubmitDeadlineReservations → ℕ → Option Reservation
reserved s operation_id = get operation_id s.by_operation

abbrev pub holder : PreSubmitDeadlineReservations → ℕ → Option ℕ
holder s frame_id = get frame_id s.by_frame

-- The two indexes say the same: an operation holds a frame exactly if the frame is held by it.
pub record Inv (s : PreSubmitDeadlineReservations) : Type 0 where
  pub ascends : Ascends s.by_operation
  pub frames_ascend : Ascends s.by_frame
  pub framed :
      (o : ℕ) (r : Reservation)
      → reserved s o ≡ some r
      → (holder s r.frame_id ≡ some o) × (r.metadata.operation_id ≡ o)
  pub held :
      (f o : ℕ)
      → holder s f ≡ some o
      → (r : Reservation) × (reserved s o ≡ some r) × (r.frame_id ≡ f)
  pub within : length s.by_operation ≤ s.limit

pub new-Inv : (max_in_flight_operations : ℕ) → Inv (new max_in_flight_operations)
unfolding new get
new-Inv n = record {
  ascends = tt;
  frames_ascend = tt;
  framed = λ o r e. absurd (cc);
  held = λ f o e. absurd (cc);
  within = ground arith;
}

-- Every reservation is alive at `now`.
abbrev pub IsLive : PreSubmitDeadlineReservations → ℕ → Type 0
IsLive s now = (o : ℕ) (r : Reservation) → reserved s o ≡ some r → now < r.metadata.deadline_unix_ms

any_expired_sound :
    (now : ℕ) (m : Dict Reservation)
    → any_expired now m ≡ false
    → (o : ℕ) (r : Reservation) → get o m ≡ some r
    → now < r.metadata.deadline_unix_ms
unfolding any_expired get
any_expired_sound now [] h o r e = absurd (cc)
any_expired_sound now ((k, q) ∷ m) h o r e =
    ground (arith, any_expired_sound now m (ground arith) o r)

any_expired_complete :
    (now n : ℕ) (m : Dict Reservation)
    → Above n m
    → ((o : ℕ) (r : Reservation) → get o m ≡ some r → now < r.metadata.deadline_unix_ms)
    → any_expired now m ≡ false
unfolding any_expired get
any_expired_complete now n [] a h = refl
any_expired_complete now n ((k, q) ∷ m) a h =
    let rest =
      any_expired_complete now (suc k) m a.1
        λ o r e. ground (arith, h o r, Above-get (suc k) o r m) in
    ground (arith, h k q)

pub reject_expired_iff :
    (s : PreSubmitDeadlineReservations) (now : ℕ)
    → Inv s
    → (reject_expired s now ≡ ok tt) ↔ IsLive s now
unfolding reject_expired
reject_expired_iff s now inv = (
  λ e. any_expired_sound now s.by_operation (ground arith),
  λ live. let quiet = any_expired_complete now 0 s.by_operation inv.ascends live in rw quiet,
)

-- Without the reservation of `o`, and without its frame.
pub reserved-without :
    (s : PreSubmitDeadlineReservations) (o j : ℕ) (r : Reservation)
    → Inv s
    → reserved (without s o r) j ≡ (if o == j then none else reserved s j)
unfolding without
reserved-without s o j r inv = ground (arith, get-remove j o 0 s.by_operation)

pub holder-without :
    (s : PreSubmitDeadlineReservations) (o f : ℕ) (r : Reservation)
    → Inv s
    → holder (without s o r) f ≡ (if r.frame_id == f then none else holder s f)
unfolding without
holder-without s o f r inv = ground (arith, get-remove f r.frame_id 0 s.by_frame)

pub without-Inv :
    (s : PreSubmitDeadlineReservations) (o : ℕ) (r : Reservation)
    → Inv s
    → reserved s o ≡ some r
    → Inv (without s o r)
unfolding without
without-Inv s o r inv known = record {
  ascends = Above-remove 0 o s.by_operation inv.ascends;
  frames_ascend = Above-remove 0 r.frame_id s.by_frame inv.frames_ascend;
  framed = λ j q e.
      let g = reserved-without s o j r inv in
      let h = holder-without s o q.frame_id r inv in
      let old = inv.framed j q in let mine = inv.framed o r known in ground arith;
  held = λ f j e.
      let h = holder-without s o f r inv in
      let (q, found, framed) = inv.held f j (ground arith) in
      let g = reserved-without s o j r inv in (q, ground arith, framed);
  within = let shorter = length-remove_le o s.by_operation in omega (arith, inv.within);
}

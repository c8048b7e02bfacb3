-- ===== src/Error.antt =====
-- crates/nnrp-core/src/error.rs: NnrpError, and the results of fallible code. A token of the peer is the list
-- of its bytes.
use nnrp_rs.Base.{ℕ, ◌≡◌, refl, ◌⊎◌, inl, inr, Bool, true, false, Option, none, some, String, List}
use nnrp_rs.OperationState.{OperationState}

pub data NnrpError : Type 0 where
  unsupported_wire_format : ℕ → NnrpError
  source_too_short : (expected actual : ℕ) → NnrpError
  destination_too_short : (expected actual : ℕ) → NnrpError
  invalid_magic : NnrpError
  invalid_header_length : ℕ → NnrpError
  unsupported_version_major : ℕ → NnrpError
  unknown_message_type : ℕ → NnrpError
  unknown_enum_value : (enum_name : String) (value : ℕ) → NnrpError
  reserved_bits_set : (value allowed : ℕ) → NnrpError
  invalid_protocol_combination : (rule : String) → NnrpError
  connection_not_open : NnrpError
  connection_already_closed : NnrpError
  session_already_exists : ℕ → NnrpError
  unknown_session : ℕ → NnrpError
  session_not_open : ℕ → NnrpError
  operation_already_exists : ℕ → NnrpError
  unknown_operation : ℕ → NnrpError
  invalid_operation_relationship : (rule : String) → NnrpError
  invalid_operation_transition : (from to : OperationState) → NnrpError
  non_zero_reserved_field : (field : String) → NnrpError
  packet_length_mismatch : (declared actual : ℕ) → NnrpError
  declared_length_mismatch : (field : String) (declared actual : ℕ) → NnrpError
  message_length_overflow : NnrpError
  invalid_capability_token_body : (reason : String) → NnrpError
  invalid_capability_token : (token : List ℕ) → NnrpError
  unknown_capability_token : (token : List ℕ) → NnrpError

-- Rust's Result with the one error type of the crate.
pub data Result {ℓ} (Value : Type ℓ) : Type ℓ where
  ok : Value → Result Value
  err : NnrpError → Result Value

-- `if bad { return Err(reason) }`.
abbrev pub reject_if : (bad : Bool) → (reason : NnrpError) → Result (Unit {0})
reject_if false reason = ok tt
reject_if true reason = err reason

-- Option::ok_or.
abbrev pub ok_or {ℓ} : {Value : Type ℓ} → Option Value → NnrpError → Result Value
ok_or (some value) reason = ok value
ok_or none reason = err reason

-- The `?` of the source: the rest of the body runs on the value.
infixl 5 ◌>>=◌
abbrev pub ◌>>=◌ {ℓ κ} :
    {Value : Type ℓ} {Next : Type κ} → Result Value → (Value → Result Next) → Result Next
err reason >>= rest = err reason
ok value >>= rest = rest value

-- The same for a check, which has no value.
infixl 5 ◌>>◌
abbrev pub ◌>>◌ {κ} : {Next : Type κ} → (check : Result (Unit {0})) → Result Next → Result Next
check >> rest = check >>= λ u. rest

-- What a body that succeeds has found on the way.
pub >>=-eq-ok {ℓ κ} :
    {Value : Type ℓ} {Next : Type κ} (first : Result Value) (rest : Value → Result Next)
    {last : Next}
    → (first >>= rest) ≡ ok last
    → (value : Value) × (first ≡ ok value) × (rest value ≡ ok last)
>>=-eq-ok (err reason) rest same = cc
>>=-eq-ok (ok value) rest same = (value, refl, same)

pub reject_if-eq-ok : (b : Bool) (e : NnrpError) {u : Unit {0}} → reject_if b e ≡ ok u → b ≡ false
reject_if-eq-ok true e h = cc
reject_if-eq-ok false e h = refl

pub Result-cases {ℓ} :
    {A : Type ℓ} (r : Result A) → ((a : A) × (r ≡ ok a)) ⊎ ((e : NnrpError) × (r ≡ err e))
Result-cases (ok a) = inl (a, refl)
Result-cases (err e) = inr (e, refl)

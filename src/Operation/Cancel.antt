-- ===== src/Operation/Cancel.antt =====
-- crates/nnrp-core/src/operation.rs: cancelling an operation, its subtree, its group or its session.
pub mod Subtree
pub mod Descendants
pub mod Effect
pub mod Targets
pub mod Scopes
pub mod Whole
pub mod OneSession
pub mod Again
mod Tests
use nnrp_rs.Base.{
  ℕ, zero, suc, ◌+◌, Bool, true, false, List, [], ◌∷◌, map, filter, Option, none, some,
  if◌then◌else◌, ◌==◌, ◌!=◌, leb, length, opt_eq,
}
use mathlib.Core.Option
use nnrp_rs.Base.Dict
use nnrp_rs.OperationState.{OperationState, is_terminal}
use nnrp_rs.Error.{
  Result, ok, err, ◌>>=◌, ◌>>◌, reject_if, ok_or, unknown_operation, invalid_operation_relationship,
}
use nnrp_rs.Enums.CancelScope
use nnrp_rs.Enums.CancelScope.{CancelScope}
use nnrp_rs.Operation.{OperationRecord, OperationRegistry, Call, put, operation}

pub record OperationCancelRequest : Type 0 where
  pub session_id : ℕ
  pub operation_id : ℕ
  pub cancel_scope : CancelScope

-- The values of the registry, in the order of their keys.
abbrev pub records : OperationRegistry → List OperationRecord
records r = Dict.values r.operations

abbrev pub ids : List OperationRecord → List ℕ
ids = map (λ rec. rec.descriptor.operation_id)

-- A set of integers (BTreeSet): its elements in ascending order.
pub member : ℕ → List ℕ → Bool
member a [] = false
member a (x ∷ xs) = if x == a then true else member a xs

-- Insertion into a list in ascending order. `sort_unstable` on integers, whose result does not depend
-- on the algorithm, is insertion of one element after the other.
pub insert_sorted : ℕ → List ℕ → List ℕ
insert_sorted a [] = a ∷ []
insert_sorted a (x ∷ xs) = if leb a x then a ∷ x ∷ xs else x ∷ insert_sorted a xs

pub sort_unstable : List ℕ → List ℕ
unfolding insert_sorted
sort_unstable [] = []
sort_unstable (x ∷ xs) = insert_sorted x (sort_unstable xs)

-- The inner loop of `subtree_operation_ids`. The head of the stack is the end of the vector.
pub push_children : List OperationRecord → ℕ → List ℕ → List ℕ
push_children [] operation_id stack = stack
push_children (rec ∷ recs) operation_id stack = push_children recs operation_id (
    if opt_eq rec.descriptor.parent_operation_id (some operation_id)
    then rec.descriptor.operation_id ∷ stack
    else stack)

-- The `while let` of `subtree_operation_ids`, with fuel; `none` means that the fuel ran out.
pub collect_subtree : ℕ → List OperationRecord → List ℕ → List ℕ → Option (List ℕ)
collect_subtree zero recs stack collected = none
collect_subtree (suc fuel) recs [] collected = some collected
collect_subtree (suc fuel) recs (operation_id ∷ stack) collected =
    elim (member operation_id collected) [
      | true ↦ collect_subtree fuel recs stack collected
      | false ↦
          collect_subtree fuel recs (push_children recs operation_id stack)
            (insert_sorted operation_id collected)
    ]

-- One round for the root, one for each record, and one to see the stack empty.
pub subtree_operation_ids : OperationRegistry → ℕ → Option (List ℕ)
unfolding collect_subtree push_children member insert_sorted
subtree_operation_ids r root_operation_id =
    collect_subtree (length (records r) + 2) (records r) (root_operation_id ∷ []) []

pub group_operation_ids : OperationRegistry → Option ℕ → Result (List ℕ)
group_operation_ids r operation_group_id = do
  group ← ok_or operation_group_id (
      invalid_operation_relationship
        "group cancel requires the target operation to have an operation_group_id")
  ok (ids (filter (λ rec. opt_eq rec.descriptor.operation_group_id (some group)) (records r)))

pub session_operation_ids : OperationRegistry → ℕ → List ℕ
session_operation_ids r session_id =
    ids (filter (λ rec. rec.descriptor.session_id == session_id) (records r))

-- The `match` of `cancel` on the scope.
pub scope_operation_ids :
    CancelScope
    → OperationRegistry
    → OperationCancelRequest
    → OperationRecord
    → Option (Result (List ℕ))
unfolding subtree_operation_ids group_operation_ids session_operation_ids
scope_operation_ids CancelScope.operation r request target = some (ok (request.operation_id ∷ []))
scope_operation_ids CancelScope.subtree r request target =
    Option.map ok (subtree_operation_ids r request.operation_id)
scope_operation_ids CancelScope.group r request target =
    some (group_operation_ids r target.descriptor.operation_group_id)
scope_operation_ids CancelScope.session r request target =
    some (ok (session_operation_ids r request.session_id))

-- The last loop of `cancel`; `none` is the panic of `expect`.
pub cancel_each : OperationRegistry → List ℕ → Option (OperationRegistry × List ℕ)
cancel_each r [] = some (r, [])
cancel_each r (operation_id ∷ operation_ids) = elim (operation r operation_id) [
  | none ↦ none
  | some rec ↦ elim (is_terminal rec.state) [
    | true ↦ cancel_each r operation_ids
    | false ↦
        Option.map (λ (r', cancelled). (r', operation_id ∷ cancelled))
          (cancel_each (put r operation_id (record rec { state = OperationState.cancelled }))
            operation_ids)
  ]
]

pub check_cancel : OperationRegistry → OperationCancelRequest → Result OperationRecord
check_cancel r request = do
  target ← ok_or (operation r request.operation_id) (unknown_operation request.operation_id)
  reject_if (target.descriptor.session_id != request.session_id)
      (invalid_operation_relationship "cancel request session_id must match the target operation")
  ok target

-- The end of `cancel`, the identifiers being collected.
cancel_collected : OperationRegistry → Option (Result (List ℕ)) → Option (Call (List ℕ))
cancel_collected r none = none
cancel_collected r (some (err e)) = some (r, err e)
cancel_collected r (some (ok operation_ids)) =
    Option.map (λ (r', cancelled). (r', ok cancelled)) (cancel_each r (sort_unstable operation_ids))

-- `none` is a panic, or fuel that ran out.
pub cancel : OperationRegistry → OperationCancelRequest → Option (Call (List ℕ))
cancel r request = elim (check_cancel r request) [
  | err e ↦ some (r, err e)
  | ok target ↦ cancel_collected r (scope_operation_ids request.cancel_scope r request target)
]

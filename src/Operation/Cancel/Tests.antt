-- ===== src/Operation/Cancel/Tests.antt =====
-- The theorems on `cancel` at a small tree of operations.
use nnrp_rs.Base.{ℕ, ◌≡◌, ◌↔◌, ◌⊎◌, refl, List, [], ◌∷◌, none, some, true, false}
use nnrp_rs.Base.Dict.{get}
use nnrp_rs.Error.{ok}
use nnrp_rs.OperationState.{OperationState, is_terminal}
use nnrp_rs.Operation.{OperationRecord, OperationRegistry, operation}
use nnrp_rs.Operation.Evolution.{Reaches}
use nnrp_rs.Operation.History.{cancels, step, run, run_follows}
use nnrp_rs.Operation.Cancel.{cancel, subtree_operation_ids, member, records}
use nnrp_rs.Operation.Cancel.Descendants.{Descends, subtree_operation_ids_lem}
use nnrp_rs.Operation.Cancel.Whole.{CancelOutcome, cancel_lem}
use nnrp_rs.Operation.Cancel.OneSession.{cancel_stays_in_session}
use nnrp_rs.Operation.Cancel.Again.{cancel_again}
use nnrp_rs.Operation.Tests.Tree.{
  descriptor, placed, tree, tree-Inv, tree_after_cancel, subtree_request,
}

cancel_lem_example : CancelOutcome tree subtree_request (cancel tree subtree_request)
cancel_lem_example = cancel_lem tree subtree_request tree-Inv

-- Operation 2 has ended before its subtree is cancelled.
cancels_rest : cancel tree subtree_request ≡ some (tree_after_cancel, ok (1 ∷ 3 ∷ []))
unfolding cancel nnrp_rs.Operation.Cancel.check_cancel get nnrp_rs.Operation.Cancel.cancel_collected
    nnrp_rs.Operation.Cancel.scope_operation_ids nnrp_rs.Base.Dict.values
    nnrp_rs.Operation.Cancel.cancel_each nnrp_rs.Operation.Cancel.sort_unstable is_terminal
    nnrp_rs.Base.Dict.set
cancels_rest = refl

subtree_operation_ids_lem_example :
    (found : List ℕ) × (subtree_operation_ids tree 2 ≡ some found)
    × ((k : ℕ) → (member k found ≡ true) ↔ Descends (records tree) 2 k)
subtree_operation_ids_lem_example = subtree_operation_ids_lem tree 2

found_2 : operation tree 2 ≡ some (placed 2 (some 1) none OperationState.completed)
unfolding get
found_2 = refl

cancels_tree : run tree (cancels subtree_request ∷ []) ≡ some tree_after_cancel
unfolding run step cancel nnrp_rs.Operation.Cancel.check_cancel get
    nnrp_rs.Operation.Cancel.cancel_collected nnrp_rs.Operation.Cancel.scope_operation_ids
    nnrp_rs.Base.Dict.values nnrp_rs.Operation.Cancel.cancel_each
    nnrp_rs.Operation.Cancel.sort_unstable is_terminal nnrp_rs.Base.Dict.set
cancels_tree = refl

run_follows_example :
    (rec' : OperationRecord) × (operation tree_after_cancel 2 ≡ some rec')
    × (rec'.descriptor ≡ descriptor 2 (some 1) none)
    × Reaches OperationState.completed rec'.state
    × ((is_terminal OperationState.completed ≡ false) ⊎ (rec'.state ≡ OperationState.completed))
run_follows_example =
    run_follows tree tree_after_cancel (cancels subtree_request ∷ []) 2
      (placed 2 (some 1) none OperationState.completed) tree-Inv cancels_tree found_2

found_3 : operation tree 3 ≡ some (placed 3 (some 2) (some 7) OperationState.accepted)
unfolding get
found_3 = refl

cancel_stays_in_session_example :
    (placed 3 (some 2) (some 7) OperationState.accepted).descriptor.session_id ≡ 42
unfolding member
cancel_stays_in_session_example =
    cancel_stays_in_session tree tree_after_cancel subtree_request (1 ∷ 3 ∷ []) 3
      (placed 3 (some 2) (some 7) OperationState.accepted) tree-Inv (λ e. cc) cancels_rest refl
      found_3

cancel_again_example :
    (r'' : OperationRegistry) × (cancel tree_after_cancel subtree_request ≡ some (r'', ok []))
    × ((k : ℕ) → operation r'' k ≡ operation tree_after_cancel k)
cancel_again_example =
    cancel_again tree tree_after_cancel subtree_request (1 ∷ 3 ∷ []) tree-Inv cancels_rest

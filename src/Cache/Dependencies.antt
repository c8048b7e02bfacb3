-- ===== src/Cache/Dependencies.antt =====
-- crates/nnrp-core/src/cache.rs: validate_cache_dependencies.
mod Tests
use nnrp_rs.Base.{
  ℕ, ◌≡◌, ◌≢◌, ◌↔◌, ◌⊎◌, inl, inr, refl, sym, ap, Bool, true, false, ◌!=◌, ◌||◌, List, [], ◌∷◌,
  Option, none, some, if◌then◌else◌, All, In, arith, Bool-cases, Option-cases, subst, ◌∙◌,
}
use nnrp_rs.Outcome.{Outcome-cases, Outcome, ok, err, reject_if, ok_or, ◌>>◌, ◌>>=◌}
use nnrp_rs.Cache.Objects.{CacheObjectId, id_eq, id_eq_iff}
use nnrp_rs.Cache.Leases.{CacheValidationFailure, dependency_invalid}

pub record CacheDependency : Type 0 where
  pub object_id : CacheObjectId
  pub required_version : ℕ

pub record CacheDependencyState : Type 0 where
  pub object_id : CacheObjectId
  pub current_version : ℕ
  pub invalidated : Bool

-- `states.iter().find(|state| state.object_id == object_id)`.
pub find_state : CacheObjectId → List CacheDependencyState → Option CacheDependencyState
find_state object_id [] = none
find_state object_id (state ∷ states) =
    if id_eq state.object_id object_id then some state else find_state object_id states

-- The body of the loop.
check_dependency :
    List CacheDependencyState → CacheDependency → Outcome CacheValidationFailure (Unit {0})
unfolding find_state
check_dependency states dependency = do
  state ← ok_or (find_state dependency.object_id states) dependency_invalid
  reject_if (state.invalidated || (state.current_version != dependency.required_version))
      dependency_invalid

pub validate_cache_dependencies :
    List CacheDependency → List CacheDependencyState → Outcome CacheValidationFailure (Unit {0})
unfolding check_dependency
validate_cache_dependencies [] states = ok tt
validate_cache_dependencies (dependency ∷ rest) states = do
  check_dependency states dependency
  validate_cache_dependencies rest states

-- The object of a dependency has a state, which is valid and has the version that is required.
abbrev pub IsMet : List CacheDependencyState → CacheDependency → Type 0
IsMet states d =
    (s : CacheDependencyState) × In s states
    × (s.object_id ≡ d.object_id)
    × (s.invalidated ≡ false)
    × (s.current_version ≡ d.required_version)

-- No object has two states.
abbrev pub IsDistinct : List CacheDependencyState → Type 0
IsDistinct [] = Unit
IsDistinct (s ∷ states) = All (λ t. t.object_id ≢ s.object_id) states × IsDistinct states

find_state_sound :
    (i : CacheObjectId) (states : List CacheDependencyState) {s : CacheDependencyState}
    → find_state i states ≡ some s
    → In s states × (s.object_id ≡ i)
unfolding find_state
find_state_sound i [] h = absurd (cc)
find_state_sound i (t ∷ states) {s} h = elim (Bool-cases (id_eq t.object_id i)) [
  | inl hit ↦
      let same : t ≡ s = ground arith in
      (
        inl same,
        ap (λ (x : CacheDependencyState). x.object_id) (sym same) ∙ (id_eq_iff t.object_id i).0 hit,
      )
  | inr miss ↦
      let (there, same) = find_state_sound i states {s = s} (ground arith) in (inr there, same)
]

absent_from :
    (s : CacheDependencyState) (states : List CacheDependencyState) (i : CacheObjectId)
    → All (λ t. t.object_id ≢ i) states
    → In s states
    → s.object_id ≢ i
absent_from s [] i apart here = absurd (here.1)
absent_from s (t ∷ states) i apart (inl same) =
    subst (λ (x : CacheDependencyState). x.object_id ≢ i) same apart.0
absent_from s (t ∷ states) i apart (inr there) = absent_from s states i apart.1 there

find_state_complete :
    (s : CacheDependencyState) (states : List CacheDependencyState)
    → IsDistinct states
    → In s states
    → find_state s.object_id states ≡ some s
unfolding find_state
find_state_complete s [] distinct here = absurd (here.1)
find_state_complete s (t ∷ states) distinct (inl same) =
    let hit =
      (id_eq_iff t.object_id s.object_id).1 (ap (λ (x : CacheDependencyState). x.object_id) same) in
    rw hit (ap some same)
find_state_complete s (t ∷ states) distinct (inr there) =
    elim (Bool-cases (id_eq t.object_id s.object_id)) [
      | inl hit ↦ absurd (
          absent_from s states t.object_id distinct.0 there
            (sym ((id_eq_iff t.object_id s.object_id).0 hit)))
      | inr miss ↦ rw miss (find_state_complete s states distinct.1 there)
    ]

check_dependency_iff :
    (states : List CacheDependencyState) (d : CacheDependency)
    → IsDistinct states
    → (check_dependency states d ≡ ok tt) ↔ IsMet states d
unfolding check_dependency
check_dependency_iff states d distinct = (
  λ e. elim (Option-cases (find_state d.object_id states)) [
    | inl gone ↦ absurd (ground arith)
    | inr (s, found) ↦
        let (member, same) = find_state_sound d.object_id states found in
        (s, member, same, ground arith, ground arith)
  ],
  λ (s, member, same, valid, version).
      let found : find_state d.object_id states ≡ some s =
        rw (sym same) (find_state_complete s states distinct member) in
      ground arith,
)

validate_cache_dependencies_iff :
    (ds : List CacheDependency) (states : List CacheDependencyState)
    → IsDistinct states
    → (validate_cache_dependencies ds states ≡ ok tt) ↔ All (IsMet states) ds
unfolding validate_cache_dependencies
validate_cache_dependencies_iff [] states distinct = (λ e. tt, λ h. refl)
validate_cache_dependencies_iff (d ∷ ds) states distinct =
    let one = check_dependency_iff states d distinct in
    let rest = validate_cache_dependencies_iff ds states distinct in
    (
      λ e. (one.0 (ground arith), rest.0 (ground arith)),
      λ h. let a = one.1 h.0 in let b = rest.1 h.1 in ground arith,
    )

one_failure :
    (ds : List CacheDependency) (states : List CacheDependencyState) (e : CacheValidationFailure)
    → validate_cache_dependencies ds states ≡ err e
    → e ≡ dependency_invalid
unfolding validate_cache_dependencies check_dependency
one_failure [] states e h = absurd (cc)
one_failure (d ∷ ds) states e h = ground (arith, one_failure ds states e)

-- Where no object has two states, the dependencies are accepted exactly when each of them is met, that
-- is, its object has a state that is not invalidated and has the required version; in every other case
-- the answer is DependencyInvalid.
pub validate_cache_dependencies_lem :
    (ds : List CacheDependency) (states : List CacheDependencyState)
    → IsDistinct states
    → ((validate_cache_dependencies ds states ≡ ok tt) × All (IsMet states) ds)
      ⊎ ((validate_cache_dependencies ds states ≡ err dependency_invalid)
          × (¬ All (IsMet states) ds))
validate_cache_dependencies_lem ds states distinct =
    let met = validate_cache_dependencies_iff ds states distinct in
    elim (Outcome-cases (validate_cache_dependencies ds states)) [
      | inl (u, e) ↦ inl (e, met.0 e)
      | inr (x, e) ↦
          inr (e ∙ ap err (one_failure ds states x e), λ h. absurd (let accepted = met.1 h in cc))
    ]

-- ===== src/Cache/Objects.antt =====
-- crates/nnrp-core/src/cache.rs: the identifiers of cached objects, and which of them a CACHE_INVALIDATE
-- is about.
use nnrp_rs.Base.{ℕ, ◌≡◌, ◌↔◌, refl, ap, sym, ◌∙◌, Bool, true, ◌==◌, ◌&&◌, arith, subst}
use nnrp_rs.Error.{ok}
use nnrp_rs.Enums.CacheObjectKind
use nnrp_rs.Enums.CacheObjectKind.{CacheObjectKind}
use nnrp_rs.Enums.CacheInvalidateScope.{CacheInvalidateScope}
use nnrp_rs.Cache.Put.{CachePutMetadata}
use nnrp_rs.Cache.Invalidate.{CacheInvalidateMetadata}

pub record CacheObjectId : Type 0 where
  pub cache_namespace : ℕ
  pub cache_key_hi : ℕ
  pub cache_key_lo : ℕ
  pub object_kind : CacheObjectKind

pub from_put : CachePutMetadata → CacheObjectId
from_put metadata = record {
  cache_namespace = metadata.cache_namespace;
  cache_key_hi = metadata.cache_key_hi;
  cache_key_lo = metadata.cache_key_lo;
  object_kind = metadata.object_kind;
}

-- The derived `==`.
unfoldable pub id_eq : CacheObjectId → CacheObjectId → Bool
id_eq a b =
    (a.cache_namespace == b.cache_namespace)
    && (a.cache_key_hi == b.cache_key_hi)
    && (a.cache_key_lo == b.cache_key_lo)
    && (CacheObjectKind.as_u32 a.object_kind == CacheObjectKind.as_u32 b.object_kind)

matches_scope : CacheInvalidateScope → CacheObjectId → CacheInvalidateMetadata → Bool
matches_scope CacheInvalidateScope.whole_session id metadata = true
matches_scope CacheInvalidateScope.namespace id metadata =
    id.cache_namespace == metadata.cache_namespace
matches_scope CacheInvalidateScope.object_kind id metadata =
    (id.cache_namespace == metadata.cache_namespace)
    && (CacheObjectKind.as_u32 id.object_kind == metadata.cache_key_hi)
matches_scope CacheInvalidateScope.object_key id metadata =
    (id.cache_namespace == metadata.cache_namespace)
    && (id.cache_key_hi == metadata.cache_key_hi)
    && (id.cache_key_lo == metadata.cache_key_lo)

pub matches_invalidate : CacheObjectId → CacheInvalidateMetadata → Bool
unfolding matches_scope
matches_invalidate id metadata = matches_scope metadata.invalidate_scope id metadata

as_u32_injective :
    (a b : CacheObjectKind) → CacheObjectKind.as_u32 a ≡ CacheObjectKind.as_u32 b → a ≡ b
as_u32_injective a b e =
    let round : ok a ≡ ok b =
      sym (CacheObjectKind.try_from_u32-as_u32 a)
      ∙ ap CacheObjectKind.try_from_u32 e
      ∙ CacheObjectKind.try_from_u32-as_u32 b in
    cc

pub id_eq_iff : (a b : CacheObjectId) → (id_eq a b ≡ true) ↔ (a ≡ b)
unfolding id_eq
id_eq_iff a b = (
  λ e. ground (arith, as_u32_injective a.object_kind b.object_kind),
  λ e.
      let kinds = ap (λ (x : CacheObjectId). CacheObjectKind.as_u32 x.object_kind) e in
      ground arith,
)

-- What a CACHE_INVALIDATE is about.
abbrev pub IsAbout : CacheInvalidateScope → CacheObjectId → CacheInvalidateMetadata → Type 0
IsAbout CacheInvalidateScope.whole_session id m = Unit
IsAbout CacheInvalidateScope.namespace id m = id.cache_namespace ≡ m.cache_namespace
IsAbout CacheInvalidateScope.object_kind id m =
    (id.cache_namespace ≡ m.cache_namespace)
    × (CacheObjectKind.try_from_u32 m.cache_key_hi ≡ ok id.object_kind)
IsAbout CacheInvalidateScope.object_key id m =
    (id.cache_namespace ≡ m.cache_namespace)
    × (id.cache_key_hi ≡ m.cache_key_hi)
    × (id.cache_key_lo ≡ m.cache_key_lo)

kind_code_iff :
    (kind : CacheObjectKind) (code : ℕ)
    → (CacheObjectKind.as_u32 kind ≡ code) ↔ (CacheObjectKind.try_from_u32 code ≡ ok kind)
kind_code_iff kind code = (
  λ e.
      subst (λ (c : ℕ). CacheObjectKind.try_from_u32 c ≡ ok kind) e
        (CacheObjectKind.try_from_u32-as_u32 kind),
  λ e. CacheObjectKind.as_u32-try_from_u32 code e,
)

matches_scope_iff :
    (scope : CacheInvalidateScope) (id : CacheObjectId) (m : CacheInvalidateMetadata)
    → (matches_scope scope id m ≡ true) ↔ IsAbout scope id m
unfolding matches_scope
matches_scope_iff CacheInvalidateScope.whole_session id m = (λ e. tt, λ h. refl)
matches_scope_iff CacheInvalidateScope.namespace id m = (λ e. ground arith, λ h. ground arith)
matches_scope_iff CacheInvalidateScope.object_kind id m =
    let code = kind_code_iff id.object_kind m.cache_key_hi in
    (λ e. (ground arith, code.0 (ground arith)), λ h. let c = code.1 h.1 in ground arith)
matches_scope_iff CacheInvalidateScope.object_key id m = (λ e. ground arith, λ h. ground arith)

-- A CACHE_INVALIDATE reaches exactly the objects that it is about: all of them for a session, those of
-- its namespace, those in its namespace whose kind the code in its key decodes to, or the one in its
-- namespace with its key.
pub matches_invalidate_iff :
    (id : CacheObjectId) (m : CacheInvalidateMetadata)
    → (matches_invalidate id m ≡ true) ↔ IsAbout m.invalidate_scope id m
unfolding matches_invalidate
matches_invalidate_iff id m = matches_scope_iff m.invalidate_scope id m

-- ===== src/Enums/CacheObjectKind.antt =====
-- crates/nnrp-core/src/cache.rs: CacheObjectKind and its codes on the wire.
use nnrp_rs.Base.{ℕ, ◌≡◌, ◌<◌, refl, List, [], ◌∷◌, arith}
use nnrp_rs.Error.{Result, ok, unknown_enum_value}
use nnrp_rs.Enums.Arms.{match_arms, match_arms-code}

pub data CacheObjectKind : Type 0 where
  camera_block tile_index_block tensor_section_table codec_table : CacheObjectKind
  reusable_result_object payload_layout_template prompt_segment tool_schema : CacheObjectKind
  structured_event_schema : CacheObjectKind

-- The discriminants of `repr(u32)`.
unfoldable pub as_u32 : CacheObjectKind → ℕ
as_u32 camera_block = 0x0001
as_u32 tile_index_block = 0x0002
as_u32 tensor_section_table = 0x0003
as_u32 codec_table = 0x0004
as_u32 reusable_result_object = 0x0005
as_u32 payload_layout_template = 0x0006
as_u32 prompt_segment = 0x0007
as_u32 tool_schema = 0x0008
as_u32 structured_event_schema = 0x0009

abbrev arms : List (ℕ × CacheObjectKind)
arms =
    (0x0001, camera_block)
    ∷ (0x0002, tile_index_block)
    ∷ (0x0003, tensor_section_table)
    ∷ (0x0004, codec_table)
    ∷ (0x0005, reusable_result_object)
    ∷ (0x0006, payload_layout_template)
    ∷ (0x0007, prompt_segment)
    ∷ (0x0008, tool_schema)
    ∷ (0x0009, structured_event_schema)
    ∷ []

unfoldable pub try_from_u32 : ℕ → Result CacheObjectKind
try_from_u32 value = match_arms arms (unknown_enum_value "cache_object_kind" value) value

pub try_from_u32-as_u32 : (t : CacheObjectKind) → try_from_u32 (as_u32 t) ≡ ok t
unfolding try_from_u32 as_u32
try_from_u32-as_u32 camera_block = refl
try_from_u32-as_u32 _ = refl

pub as_u32-try_from_u32 :
    (value : ℕ) {t : CacheObjectKind} → try_from_u32 value ≡ ok t → as_u32 t ≡ value
unfolding try_from_u32 as_u32
as_u32-try_from_u32 value h =
    match_arms-code as_u32 arms (unknown_enum_value "cache_object_kind" value) value (omega arith) h

pub as_u32-lt : (t : CacheObjectKind) → as_u32 t < 4294967296
unfolding as_u32
as_u32-lt camera_block = omega arith
as_u32-lt _ = omega arith

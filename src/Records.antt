-- ===== src/Records.antt =====
-- The records with a fixed layout of crates/nnrp-core/src/flow.rs, session.rs, control.rs, cache.rs and
-- schema.rs together: what holds of the codec of each.
pub mod Tails
mod Tests
use nnrp_rs.Base.{ℕ, ◌≡◌, ◌↔◌, List, All}
use nnrp_rs.Error.{ok}
use nnrp_rs.Wire.Little.{IsByte}
use nnrp_rs.Wire.Codec.{Codec, parse_iff_write}
use nnrp_rs.Flow.{FlowUpdateMetadata}
use nnrp_rs.Flow.RoundTrip as FlowRoundTrip
use nnrp_rs.Session.Open.{SessionOpenMetadata}
use nnrp_rs.Session.Open.RoundTrip as OpenRoundTrip
use nnrp_rs.Session.OpenAck.{SessionOpenAckMetadata}
use nnrp_rs.Session.OpenAck.RoundTrip as OpenAckRoundTrip
use nnrp_rs.Session.Close.{SessionCloseMetadata}
use nnrp_rs.Session.Close.RoundTrip as CloseRoundTrip
use nnrp_rs.Session.CloseAck.{SessionCloseAckMetadata}
use nnrp_rs.Session.CloseAck.RoundTrip as CloseAckRoundTrip
use nnrp_rs.Control.Request.{ControlRequestMetadata}
use nnrp_rs.Control.Request.RoundTrip as RequestRoundTrip
use nnrp_rs.Control.Scheduling.{SchedulingMetadata}
use nnrp_rs.Control.Scheduling.RoundTrip as SchedulingRoundTrip
use nnrp_rs.Control.Supersede.{SupersedeMetadata}
use nnrp_rs.Control.Supersede.RoundTrip as SupersedeRoundTrip
use nnrp_rs.Control.Progress.{ProgressMetadata}
use nnrp_rs.Control.Progress.RoundTrip as ProgressRoundTrip
use nnrp_rs.Control.PartialResult.{PartialResultMetadata}
use nnrp_rs.Control.PartialResult.RoundTrip as PartialResultRoundTrip
use nnrp_rs.Control.DropReason.{ResultDropReasonMetadata}
use nnrp_rs.Control.DropReason.RoundTrip as DropReasonRoundTrip
use nnrp_rs.Control.Pressure.{PressureMetadata}
use nnrp_rs.Control.Pressure.RoundTrip as PressureRoundTrip
use nnrp_rs.Cache.Put.{CachePutMetadata}
use nnrp_rs.Cache.Put.RoundTrip as PutRoundTrip
use nnrp_rs.Cache.Ack.{CacheAckMetadata}
use nnrp_rs.Cache.Ack.RoundTrip as AckRoundTrip
use nnrp_rs.Cache.Invalidate.{CacheInvalidateMetadata}
use nnrp_rs.Cache.Invalidate.RoundTrip as InvalidateRoundTrip
use nnrp_rs.Schema.Descriptor.{SchemaDescriptorHeader}
use nnrp_rs.Schema.Descriptor.RoundTrip as DescriptorRoundTrip
use nnrp_rs.Schema.Payload.{TypedPayloadDescriptor}
use nnrp_rs.Schema.Payload.RoundTrip as PayloadRoundTrip

pub data Record : Type 0 where
  flow_update session_open session_open_ack session_close session_close_ack : Record
  control_request scheduling supersede progress partial_result : Record
  result_drop_reason pressure cache_put cache_ack cache_invalidate : Record
  schema_descriptor typed_payload : Record

abbrev pub Content : Record → Type 0
Content flow_update = FlowUpdateMetadata
Content session_open = SessionOpenMetadata
Content session_open_ack = SessionOpenAckMetadata
Content session_close = SessionCloseMetadata
Content session_close_ack = SessionCloseAckMetadata
Content control_request = ControlRequestMetadata
Content scheduling = SchedulingMetadata
Content supersede = SupersedeMetadata
Content progress = ProgressMetadata
Content partial_result = PartialResultMetadata
Content result_drop_reason = ResultDropReasonMetadata
Content pressure = PressureMetadata
Content cache_put = CachePutMetadata
Content cache_ack = CacheAckMetadata
Content cache_invalidate = CacheInvalidateMetadata
Content schema_descriptor = SchemaDescriptorHeader
Content typed_payload = TypedPayloadDescriptor

abbrev pub codec_of : (kind : Record) → Codec (Content kind)
codec_of flow_update = FlowRoundTrip.codec
codec_of session_open = OpenRoundTrip.codec
codec_of session_open_ack = OpenAckRoundTrip.codec
codec_of session_close = CloseRoundTrip.codec
codec_of session_close_ack = CloseAckRoundTrip.codec
codec_of control_request = RequestRoundTrip.codec
codec_of scheduling = SchedulingRoundTrip.codec
codec_of supersede = SupersedeRoundTrip.codec
codec_of progress = ProgressRoundTrip.codec
codec_of partial_result = PartialResultRoundTrip.codec
codec_of result_drop_reason = DropReasonRoundTrip.codec
codec_of pressure = PressureRoundTrip.codec
codec_of cache_put = PutRoundTrip.codec
codec_of cache_ack = AckRoundTrip.codec
codec_of cache_invalidate = InvalidateRoundTrip.codec
codec_of schema_descriptor = DescriptorRoundTrip.codec
codec_of typed_payload = PayloadRoundTrip.codec

-- Of each record with a fixed layout (FLOW_UPDATE, the four session messages, the seven control messages,
-- the three cache messages, schema descriptors and typed payload descriptors): a buffer of bytes parses
-- to given values of its fields, which fit their integer types, exactly when writing them over that
-- buffer succeeds and changes nothing.
pub records_parse_iff_write :
    (kind : Record) (s : List ℕ) (m : Content kind)
    → All IsByte s
    → (codec_of kind).IsInRange m
    → ((codec_of kind).parse s ≡ ok m) ↔ ((codec_of kind).write m s ≡ ok s)
records_parse_iff_write kind = parse_iff_write (codec_of kind)

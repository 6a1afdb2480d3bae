-- ===== src/Server/DataSource.antt =====
-- opcua-server/src/native.rs: the data source of a tag, which open62541 calls for reads and writes, and
-- the thread that passes writes on. The handler behind the channel is an argument.
pub mod Reads
use opcua_plc_bridge.Base.{
  ℕ, Bool, true, false, if◌then◌else◌, Str, Option, none, some, Outcome, ok, err,
}
use opcua_plc_bridge.Core.Error.{CoreError}
use opcua_plc_bridge.Core.TagValue.{TagValue, TagQuality, TagDataType}
use opcua_plc_bridge.Core.Tag.{Tag}
use opcua_plc_bridge.Core.TagDefinition.{TagDefinition}
use opcua_plc_bridge.Core.Registry.{TagRegistry, get_tag, get_definition}
use opcua_plc_bridge.Server.Config.{WriteMode}
use opcua_plc_bridge.Server.Error.{ServerError}
use opcua_plc_bridge.Server.Variant.{Ua, Variant, tagvalue_to_variant, variant_to_tagvalue}

-- The `ua::StatusCode`s that are used.
pub data StatusCode : Type 0 where
  good uncertain_subnormal bad_unexpected_error bad_internal_error : StatusCode

-- `tagquality_to_ua_status`
unfoldable pub tagquality_to_ua_status : TagQuality → StatusCode
tagquality_to_ua_status TagQuality.good = good
tagquality_to_ua_status TagQuality.initializing = uncertain_subnormal
tagquality_to_ua_status TagQuality.stale = uncertain_subnormal
tagquality_to_ua_status TagQuality.comm_lost = bad_unexpected_error
tagquality_to_ua_status TagQuality.config_error = bad_unexpected_error
tagquality_to_ua_status TagQuality.type_mismatch = bad_unexpected_error
tagquality_to_ua_status TagQuality.substitute = uncertain_subnormal
tagquality_to_ua_status (TagQuality.error text) = bad_unexpected_error

-- The status of a read, where `Initializing` counts as good.
unfoldable pub read_status : TagQuality → StatusCode
unfolding tagquality_to_ua_status
read_status TagQuality.initializing = good
read_status quality = tagquality_to_ua_status quality

pub record DataValue (S D B : Type 0) : Type 0 where
  pub variant : Variant S D B
  pub status : StatusCode
  pub source_timestamp : D
  pub server_timestamp : D

-- What the write thread is sent; `confirmed` says that a reply channel goes with it.
pub record BridgeWrite (T : Type 0) : Type 0 where
  pub tag_id : Str
  pub value : TagValue T
  pub confirmed : Bool

-- `reply_rx.recv_timeout(self.confirm_timeout)`; an error's text is the error.
pub data Reply : Type 0 where
  received : Outcome ServerError (Unit {0}) → Reply
  timed_out disconnected : Reply

module _ {T S D B : Type 0} (ua : Ua T S D B) (epoch : D) where
  abbrev or_epoch : Option D → D
  or_epoch none = epoch
  or_epoch (some d) = d

  abbrev nanos_to_ua_dt : Option ℕ → D
  nanos_to_ua_dt none = or_epoch (ua.try_from_unix_timestamp_nanos 0)
  nanos_to_ua_dt (some nanos) = or_epoch (ua.try_from_unix_timestamp_nanos nanos)

  -- `chrono_to_ua_dt`; `epoch` is the time of 0 nanoseconds, which unwraps.
  unfoldable pub chrono_to_ua_dt : T → D
  chrono_to_ua_dt t = nanos_to_ua_dt (ua.timestamp_nanos_opt t)

  abbrev pub data_value : Tag T → Option (Variant S D B) → Outcome StatusCode (DataValue S D B)
  data_value tag none = err bad_internal_error
  data_value tag (some variant) = ok (record {
    variant = variant;
    status = read_status tag.quality;
    source_timestamp = chrono_to_ua_dt tag.source_timestamp;
    server_timestamp = chrono_to_ua_dt tag.server_timestamp;
  })

  abbrev read_tag : Outcome CoreError (Tag T) → Outcome StatusCode (DataValue S D B)
  read_tag (err e) = err bad_internal_error
  read_tag (ok tag) = data_value tag (tagvalue_to_variant ua tag.value)

  -- `DataSource::read`
  unfoldable pub read : TagRegistry T → Str → Outcome StatusCode (DataValue S D B)
  read r tag_id = read_tag (get_tag r tag_id)

module _ {T S D B : Type 0} (ua : Ua T S D B) (answer : BridgeWrite T → Reply) where
  -- `match reply_rx.recv_timeout(self.confirm_timeout)`
  abbrev pub on_reply : Reply → Outcome StatusCode (Unit {0})
  on_reply (received (ok done)) = ok tt
  on_reply (received (err e)) = err bad_internal_error
  on_reply timed_out = err bad_internal_error
  on_reply disconnected = err bad_internal_error

  -- Behind the conversion; `queue_open` says that the write thread still receives.
  unfoldable pub send_value :
      WriteMode → Bool → Str → TagValue T → Outcome StatusCode (Unit {0}) × Option (BridgeWrite T)
  send_value WriteMode.queued_ack queue_open tag_id v =
      let bridge : BridgeWrite T = record { tag_id = tag_id; value = v; confirmed = false } in
      if queue_open then (ok tt, some bridge) else (err bad_internal_error, none)
  send_value WriteMode.confirmed_ack queue_open tag_id v =
      let bridge : BridgeWrite T = record { tag_id = tag_id; value = v; confirmed = true } in
      if queue_open then (on_reply (answer bridge), some bridge) else (err bad_internal_error, none)

  unfoldable pub write_converted :
      WriteMode
      → Bool
      → Str
      → Outcome Str (TagValue T)
      → Outcome StatusCode (Unit {0}) × Option (BridgeWrite T)
  write_converted mode queue_open tag_id (err e) = (err bad_internal_error, none)
  write_converted mode queue_open tag_id (ok v) = send_value mode queue_open tag_id v

  unfoldable pub write_defined :
      WriteMode
      → Bool
      → Str
      → Variant S D B
      → Outcome CoreError TagDefinition
      → Outcome StatusCode (Unit {0}) × Option (BridgeWrite T)
  write_defined mode queue_open tag_id variant (err e) = (err bad_internal_error, none)
  write_defined mode queue_open tag_id variant (ok def) =
      write_converted mode queue_open tag_id (variant_to_tagvalue ua variant def.data_type)

  -- `DataSource::write`, with what the write thread is sent.
  unfoldable pub write :
      TagRegistry T
      → WriteMode
      → Bool
      → Str
      → Option (Variant S D B)
      → Outcome StatusCode (Unit {0}) × Option (BridgeWrite T)
  write r mode queue_open tag_id none = (err bad_internal_error, none)
  write r mode queue_open tag_id (some variant) =
      write_defined mode queue_open tag_id variant (get_definition r tag_id)

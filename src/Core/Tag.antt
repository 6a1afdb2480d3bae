-- ===== src/Core/Tag.antt =====
-- core-model/src/tag.rs: the runtime state of a tag. What `Utc::now()` reads is the argument `now`.
use opcua_plc_bridge.Core.TagValue.{TagValue, TagQuality}

pub record Tag (T : Type 0) : Type 0 where
  pub value : TagValue T
  pub quality : TagQuality
  pub source_timestamp : T
  pub server_timestamp : T

module _ {T : Type 0} where
  -- `Tag::new`
  unfoldable pub new_tag : TagValue T → T → Tag T
  new_tag v now = record {
    value = v;
    quality = TagQuality.initializing;
    source_timestamp = now;
    server_timestamp = now;
  }

  -- `Tag::apply_read`
  unfoldable pub apply_read : Tag T → TagValue T → TagQuality → T → T → Tag T
  apply_read t v q source_ts now = record {
    value = v;
    quality = q;
    source_timestamp = source_ts;
    server_timestamp = now;
  }

  -- `Tag::set_quality`
  unfoldable pub set_quality : Tag T → TagQuality → T → Tag T
  set_quality t q now = record t { quality = q; server_timestamp = now }

  -- `Tag::touch`
  unfoldable pub touch : Tag T → T → Tag T
  touch t now = record t { server_timestamp = now }

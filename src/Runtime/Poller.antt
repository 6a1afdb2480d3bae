-- ===== src/Runtime/Poller.antt =====
-- runtime/src/runtime_driver.rs: what the poller of a driver does around a cycle, and `Tag::is_stale`
-- of core-model/src/tag.rs. Times are chrono's: `signed_duration_since` is a parameter, in
-- nanoseconds, `none` where it is negative. A timeout is below 2 ^ 63 milliseconds, so that `as i64`
-- keeps it. Sleeping, jitter and shutdown are tokio's and left out.
pub mod Stale
use opcua_plc_bridge.Base.{
  ℕ, ◌+◌, ◌*◌, min, Bool, true, false, not, ◌&&◌, List, [], ◌∷◌, Str, str_eq, Option, none, some,
  ltb, ◌==◌, if◌then◌else◌, Outcome, ok, err,
}
use opcua_plc_bridge.Core.Error.{CoreError}
use opcua_plc_bridge.Core.TagValue.{TagQuality}
use opcua_plc_bridge.Core.Tag.{Tag}
use opcua_plc_bridge.Core.TagDefinition.{TagDefinition}
use opcua_plc_bridge.Core.DefinitionStore.{all_definitions_sorted}
use opcua_plc_bridge.Core.Registry.{TagRegistry, get_tag, set_tag_quality}

-- The wait before the next cycle, in seconds, after a cycle and the wait before it; `2 * 30` does not
-- saturate.
unfoldable pub next_backoff : {A E : Type 0} → ℕ → Outcome E A → ℕ → ℕ
next_backoff max_backoff (ok done) backoff_secs = 0
next_backoff max_backoff (err e) backoff_secs =
    if backoff_secs == 0 then 1 else min (backoff_secs * 2) max_backoff

-- The value that `RuntimeDriver::new` gives.
abbrev pub max_backoff_secs : ℕ
max_backoff_secs = 30

-- `tag.quality != TagQuality::Stale`
abbrev pub is_stale_quality : TagQuality → Bool
is_stale_quality TagQuality.stale = true
is_stale_quality _ = false

module _ {T : Type 0} (signed_duration_since : T → T → Option ℕ) where
  -- A duration above a timeout in milliseconds.
  abbrev older : Option ℕ → ℕ → Bool
  older none timeout = true
  older (some d) timeout = ltb (timeout * 1000000) d

  -- `Tag::is_stale`; a timestamp in the future is stale.
  unfoldable pub is_stale : Tag T → ℕ → T → Bool
  is_stale t timeout now = older (signed_duration_since now t.source_timestamp) timeout

  module _ (clock : ℕ → T) where
    -- The registry and the number of readings of the clock.
    abbrev pub Timed : Type 0
    Timed = TagRegistry T × ℕ

    abbrev pub mark : Str → TagQuality → Bool → Timed → Timed
    mark id quality false (r, n) = (r, n + 1)
    mark id quality true (r, n) =
        if is_stale_quality quality
        then (r, n + 1)
        else ((set_tag_quality id TagQuality.stale (clock (n + 1)) r).1, n + 2)

    abbrev pub check_tag : Str → ℕ → Outcome CoreError (Tag T) → Timed → Timed
    check_tag id timeout_ms (err e) s = s
    check_tag id timeout_ms (ok tag) s = mark id tag.quality (is_stale tag timeout_ms (clock s.1)) s

    abbrev pub check_timeout : TagDefinition → Option ℕ → Timed → Timed
    check_timeout d none s = s
    check_timeout d (some timeout_ms) s = check_tag d.id timeout_ms (get_tag s.0 d.id) s

    -- The body of the loop of `check_stale_tags`.
    unfoldable pub check_definition : Str → TagDefinition → Timed → Timed
    unfolding is_stale
    check_definition plc_name d s =
        if str_eq d.plc_name plc_name then check_timeout d d.stale_after_ms s else s

    unfoldable pub check_definitions : Str → List TagDefinition → Timed → Timed
    unfolding check_definition
    check_definitions plc_name [] s = s
    check_definitions plc_name (d ∷ ds) s =
        check_definitions plc_name ds (check_definition plc_name d s)

    -- `check_stale_tags`
    unfoldable pub check_stale_tags : Str → Timed → Timed
    unfolding check_definitions
    check_stale_tags plc_name s =
        check_definitions plc_name (all_definitions_sorted s.0.definitions) s

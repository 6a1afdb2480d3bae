-- ===== src/Driver/Chrono.antt =====
-- What the drivers use of the crate chrono, which is not part of the repository: operations on its
-- `DateTime<Utc>`, here `T`. Milliseconds are an `i64` as its bit pattern, as in `as u64`.
use opcua_plc_bridge.Base.{ℕ, ◌<◌, ◌^◌, ◌≡◌, Str, Option, some}

pub record Chrono (T : Type 0) : Type 0 where
  pub timestamp_millis : T → ℕ
  pub from_timestamp_millis : ℕ → Option T
  pub parse_from_rfc3339 : Str → Option T
  pub unix_epoch : T

-- chrono's documented round trip, at a time of whole milliseconds.
abbrev pub IsWholeMillis : {T : Type 0} → Chrono T → T → Type 0
IsWholeMillis c t =
    (c.from_timestamp_millis (c.timestamp_millis t) ≡ some t) × (c.timestamp_millis t < 2 ^ 64)

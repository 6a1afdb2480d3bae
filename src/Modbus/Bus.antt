-- ===== src/Modbus/Bus.antt =====
-- driver/modbus/src/driver.rs: the state of a driver during a cycle, and what it calls. The Modbus
-- client (tokio_modbus) and the clock are parameters: `Device` answers the n-th call of the cycle.
pub mod Keeps
pub mod Seen
use opcua_plc_bridge.Base.{
  ℕ, ◌+◌, Bool, true, false, List, [], ◌∷◌, ◌++◌, Str, Option, none, some, Outcome, ok, err,
}
use opcua_plc_bridge.Core.TagValue.{TagValue, TagQuality}
use opcua_plc_bridge.Core.Registry
use opcua_plc_bridge.Core.Registry.{TagRegistry}
use opcua_plc_bridge.Driver.Error.{DriverError}
use opcua_plc_bridge.Modbus.Mapping.{ModbusFunction}

-- What a client call under `time::timeout` comes to. The text of an exception is its `{:?}` form,
-- that of a transport error its `{}` form.
pub data Answer (A : Type 0) : Type 0 where
  answered : A → Answer A
  exception transport : Str → Answer A
  timed_out : Answer A

pub record Device : Type 0 where
  pub read_registers : ℕ → ModbusFunction → ℕ → ℕ → Answer (List ℕ)
  pub read_bits : ℕ → ModbusFunction → ℕ → ℕ → Answer (List Bool)
  pub write_multiple_registers : ℕ → ℕ → List ℕ → Answer (Unit {0})

-- driver/modbus/src/write_request.rs; the reply channel is known by a number.
pub record WriteRequest (T : Type 0) : Type 0 where
  pub tag_id : Str
  pub value : TagValue T
  pub reply : Option ℕ

-- The texts that a failed write is answered with.
pub data WriteFailure : Type 0 where
  unknown_tag_mapping tag_not_writable ordered_bytes_not_even unsupported_function write_timeout :
      WriteFailure
  conversion_error : DriverError → WriteFailure
  modbus_exception modbus_error transport_error : Str → WriteFailure

-- `ticks` counts the readings of the clock, `calls` those of the client; `connected` says that
-- `client` holds a context; `replies` are those sent, `health` the events given to
-- `send_health_event`, oldest first.
pub record Bus (T : Type 0) : Type 0 where
  pub registry : TagRegistry T
  pub ticks : ℕ
  pub calls : ℕ
  pub connected : Bool
  pub queue : List (WriteRequest T)
  pub replies : List (ℕ × Outcome WriteFailure (Unit {0}))
  pub health : List (Str × Str)

module _ {T : Type 0} (clock : ℕ → T) where
  -- `let _ = self.registry.set_tag_quality(id, quality)`
  unfoldable pub set_quality : Str → TagQuality → Bus T → Bus T
  set_quality id quality b = record b {
    registry = (Registry.set_tag_quality id quality (clock b.ticks) b.registry).1;
    ticks = b.ticks + 1;
  }

  -- `let source_ts = Utc::now(); let _ = self.registry.update_tag_value(id, value, Good, source_ts)`
  unfoldable pub update_good : Str → TagValue T → Bus T → Bus T
  update_good id value b = record b {
    registry =
        (Registry.update_tag_value id value TagQuality.good (clock b.ticks) (clock (b.ticks + 1))
          b.registry).1;
    ticks = b.ticks + 2;
  }

module _ {T : Type 0} where
  -- `if let Some(reply) = req.reply { let _ = reply.send(result); }`
  unfoldable pub send_reply : Option ℕ → Outcome WriteFailure (Unit {0}) → Bus T → Bus T
  send_reply none result b = b
  send_reply (some channel) result b = record b { replies = b.replies ++ ((channel, result) ∷ []) }

  -- `send_health_event(status, Some(detail))`; the event's JSON form is left out.
  unfoldable pub send_health_event : Str → Str → Bus T → Bus T
  send_health_event status detail b = record b { health = b.health ++ ((status, detail) ∷ []) }

  -- `connect_with_backoff` returns only with a context.
  unfoldable pub connect : Bus T → Bus T
  connect b = record b { connected = true }

  -- `guard.take()`: while it is in use, the context is not in `client`.
  unfoldable pub take_context : Bus T → Bus T
  take_context b = record b { connected = false }

  -- `*guard = Some(ctx)`
  unfoldable pub put_back : Bus T → Bus T
  put_back b = record b { connected = true }

-- A part of a cycle that can return early with an error.
abbrev pub Run : Type 0 → Type 0
Run T = Bus T → Outcome DriverError (Unit {0}) × Bus T

module _ {T : Type 0} where
  abbrev pub and_then :
      Outcome DriverError (Unit {0}) × Bus T → Run T → Outcome DriverError (Unit {0}) × Bus T
  and_then (ok done, b) next = next b
  and_then (err e, b) next = (err e, b)

  -- A loop whose body can return early.
  unfoldable pub each : {A : Type 0} → (A → Run T) → List A → Run T
  each body [] b = (ok tt, b)
  each body (x ∷ xs) b = and_then (body x b) (each body xs)

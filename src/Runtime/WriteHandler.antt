-- ===== src/Runtime/WriteHandler.antt =====
-- runtime/src/write_handler.rs: `handle_write`. The channels and timers are tokio's: what `tx.send`
-- under its timeout and the wait for the confirmation come to are arguments.
pub mod Checked
pub mod Client
use opcua_plc_bridge.Base.{
  ℕ, Bool, not, List, [], ◌∷◌, Str, Option, none, some, lookup, Outcome, ok, err, ◌>>◌, ◌>>=◌,
  fail_if,
}
use opcua_plc_bridge.Core.Error.{CoreError}
use opcua_plc_bridge.Core.TagValue.{TagValue, data_type, same_type}
use opcua_plc_bridge.Core.Tag.{Tag}
use opcua_plc_bridge.Core.TagDefinition.{TagDefinition}
use opcua_plc_bridge.Core.Registry.{TagRegistry, get_tag, get_definition}
use opcua_plc_bridge.Server.Error.{
  ServerError, DriverKind, type_mismatch, not_writable, definition_not_found, no_route,
  runtime_tag_not_found, enqueue_failed, enqueue_timed_out, write_failed, confirmation_closed,
  confirmation_timed_out,
}

-- `time::timeout(driver_send_timeout, tx.send(drv_req))`
pub data Sending : Type 0 where
  sent send_timed_out : Sending
  send_failed : Str → Sending

-- `time::timeout(confirm_timeout, reply_rx)`
pub data Confirmation : Type 0 where
  replied : Outcome Str (Unit {0}) → Confirmation
  closed timed_out : Confirmation

-- `DriverSender`: its variant, and the driver whose queue it sends to, by that driver's place among those
-- that were started.
pub record Sender : Type 0 where
  pub kind : DriverKind
  pub driver : ℕ

-- The map from tag ids to senders.
abbrev pub Routing : Type 0
Routing = List (Str × Sender)

abbrev check_writable : Str → Outcome CoreError TagDefinition → Outcome ServerError (Unit {0})
check_writable id (ok def) = fail_if (not def.writable) (not_writable id)
check_writable id (err e) = err (definition_not_found id)

abbrev find_route : Str → Option Sender → Outcome ServerError Sender
find_route id none = err (no_route id)
find_route id (some sender) = ok sender

-- `match time::timeout(confirm_timeout, reply_rx).await`
unfoldable pub on_confirmation : Confirmation → Outcome ServerError (Unit {0})
on_confirmation (replied (ok done)) = ok tt
on_confirmation (replied (err err_msg)) = err (write_failed err_msg)
on_confirmation closed = err confirmation_closed
on_confirmation timed_out = err confirmation_timed_out

-- What a driver was sent: through which sender, the tag and the value.
pub record Delivery (T : Type 0) : Type 0 where
  pub sender : Sender
  pub tag_id : Str
  pub value : TagValue T

module _ {T : Type 0} where
  -- `matches!` on the tag's value and the new one: the same variant.
  abbrev check_type : Str → TagValue T → Outcome CoreError (Tag T) → Outcome ServerError (Unit {0})
  check_type id value (ok tag) =
      fail_if (not (same_type (data_type tag.value) (data_type value))) (type_mismatch id)
  check_type id value (err e) = err (runtime_tag_not_found id e)

  -- The part of `handle_write` before anything is sent.
  unfoldable pub admit : TagRegistry T → Routing → Str → TagValue T → Outcome ServerError Sender
  admit r routing id value = do
    check_type id value (get_tag r id)
    check_writable id (get_definition r id)
    find_route id (lookup id routing)

  unfoldable pub on_sending :
      Sender
      → Str
      → TagValue T
      → Sending
      → Confirmation
      → Outcome ServerError (Unit {0}) × Option (Delivery T)
  on_sending sender id value sent confirmation =
      (on_confirmation confirmation, some (record { sender = sender; tag_id = id; value = value }))
  on_sending sender id value (send_failed e) confirmation =
      (err (enqueue_failed sender.kind e), none)
  on_sending sender id value send_timed_out confirmation =
      (err (enqueue_timed_out sender.kind), none)

  unfoldable pub on_admitted :
      Outcome ServerError Sender
      → Str
      → TagValue T
      → Sending
      → Confirmation
      → Outcome ServerError (Unit {0}) × Option (Delivery T)
  on_admitted (err e) id value sending confirmation = (err e, none)
  on_admitted (ok sender) id value sending confirmation =
      on_sending sender id value sending confirmation

  -- `handle_write`, with the delivery to a driver.
  unfoldable pub handle_write :
      TagRegistry T
      → Routing
      → Str
      → TagValue T
      → Sending
      → Confirmation
      → Outcome ServerError (Unit {0}) × Option (Delivery T)
  handle_write r routing id value sending confirmation =
      on_admitted (admit r routing id value) id value sending confirmation

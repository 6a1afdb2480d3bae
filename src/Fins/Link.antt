-- ===== src/Fins/Link.antt =====
-- driver/fins/src/driver.rs: the state of a driver during a cycle, and what it calls. The TCP stream
-- (tokio) and the clock are parameters: `Stream` answers the n-th call of the cycle.
pub mod Keeps
use opcua_plc_bridge.Base.{
  ℕ, ◌+◌, ◌*◌, ◌/◌, ◌%◌, ◌^◌, Bool, not, ◌>>◌, List, [], ◌∷◌, ◌++◌, Str, codes, Option, none, some,
  Outcome, ok, err, ◌>>=◌, is_err,
}
use opcua_plc_bridge.Core.TagValue.{TagValue, TagQuality}
use opcua_plc_bridge.Core.Registry
use opcua_plc_bridge.Core.Registry.{TagRegistry}
use opcua_plc_bridge.Driver.Error.{DriverError, io, modbus, protocol, mapping, other, timeout}
use opcua_plc_bridge.Driver.Utf8.{hex_upper}
use opcua_plc_bridge.Fins.Frame.{byte_at}
use opcua_plc_bridge.Modbus.Bus.{WriteRequest}

-- What the stream's calls come to; the text of an error is its `{}` form. `read_exact n size` gives
-- the bytes that fill a buffer of `size` bytes.
pub record Stream : Type 0 where
  pub write_all : ℕ → List ℕ → Outcome Str (Unit {0})
  pub read_exact : ℕ → ℕ → Outcome Str (List ℕ)

-- A `WriteRequest` has the fields that the Modbus driver's has. `ticks` counts the readings of the
-- clock, `calls` those of the stream; `connected` says that `conn` holds a stream; `replies` are
-- those sent, oldest first.
pub record Link (T : Type 0) : Type 0 where
  pub registry : TagRegistry T
  pub ticks : ℕ
  pub calls : ℕ
  pub connected : Bool
  pub sid_counter : ℕ
  pub queue : List (WriteRequest T)
  pub replies : List (ℕ × Outcome Str (Unit {0}))

-- driver/fins/src/errors.rs: the `{}` form of an error. The FINS driver has no error `modbus`.
unfoldable pub display : DriverError → Str
display (io e) = codes "IO error: " ++ e
display (protocol e) = codes "Protocol error: " ++ e
display (mapping e) = codes "Mapping error: " ++ e
display (modbus e) = e
display (other e) = codes "Other: " ++ e
display timeout = codes "Timeout"

-- `format!("FINS end code: 0x{:04X}", end_code)`
unfoldable pub end_code_text : ℕ → Str
end_code_text end_code =
    codes "FINS end code: 0x" ++ hex_upper (end_code / 2 ^ 8 ∷ end_code % 2 ^ 8 ∷ [])

module _ {T : Type 0} where
  -- `next_sid`: `fetch_add` on an `AtomicU8`, which wraps.
  unfoldable pub next_sid : Link T → ℕ × Link T
  next_sid b = (b.sid_counter, record b { sid_counter = (b.sid_counter + 1) % 2 ^ 8 })

  -- `if let Some(reply) = req.reply { let _ = reply.send(result); }`
  unfoldable pub send_reply : Option ℕ → Outcome Str (Unit {0}) → Link T → Link T
  send_reply none result b = b
  send_reply (some channel) result b = record b { replies = b.replies ++ ((channel, result) ∷ []) }

module _ {T : Type 0} (clock : ℕ → T) where
  -- `let _ = self.registry.set_tag_quality(id, quality)`
  unfoldable pub set_quality : Str → TagQuality → Link T → Link T
  set_quality id quality b = record b {
    registry = (Registry.set_tag_quality id quality (clock b.ticks) b.registry).1;
    ticks = b.ticks + 1;
  }

  -- `let source_ts = Utc::now()` and, with it, `update_tag_value(id, value, Good, source_ts)`.
  unfoldable pub update_good : Str → TagValue T → Link T → Link T
  update_good id value b = record b {
    registry =
        (Registry.update_tag_value id value TagQuality.good (clock b.ticks) (clock (b.ticks + 1))
          b.registry).1;
    ticks = b.ticks + 2;
  }

-- `ReadBytesExt::read_u32::<BigEndian>` on bytes 4 to 7 of the header.
unfoldable pub payload_length : List ℕ → ℕ
payload_length header =
    byte_at 4 header * 2 ^ 24
    + byte_at 5 header * 2 ^ 16
    + byte_at 6 header * 2 ^ 8
    + byte_at 7 header

module _ (stream : Stream) where
  -- A request and its response, as calls `n`, `n + 1` and `n + 2`: the frame is written, then the
  -- eight bytes of the FINS/TCP header and the payload are read. The first error ends it.
  unfoldable pub exchange : ℕ → List ℕ → Outcome Str (List ℕ)
  unfolding payload_length
  exchange n wrapped = do
    stream.write_all n wrapped
    header ← stream.read_exact (n + 1) 8
    stream.read_exact (n + 2) (payload_length header)

  -- The stream, or a new one, is taken from `conn`; after an error `conn` is left empty, otherwise
  -- the stream is put back. `connect_with_backoff` returns only with a stream.
  unfoldable pub request : {T : Type 0} → List ℕ → Link T → Outcome Str (List ℕ) × Link T
  request wrapped b =
      let answer = exchange b.calls wrapped in
      (answer, record b { calls = b.calls + 3; connected = not (is_err answer) })

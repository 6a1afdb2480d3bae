-- ===== src/Modbus/Cycle/Context.antt =====
-- Whether a cycle keeps its connection (driver/modbus/src/driver.rs).
use opcua_plc_bridge.Base.{
  ℕ, zero, suc, ◌%◌, ◌==◌, ◌≡◌, refl, ◌∙◌, List, [], ◌∷◌, Str, Option, none, some, Bool, true,
  false, Outcome, ok, err, if-both, is_err, not, length,
}
use opcua_plc_bridge.Core.Error.{CoreError}
use opcua_plc_bridge.Core.TagValue.{TagValue, TagQuality}
use opcua_plc_bridge.Core.Tag.{Tag}
use opcua_plc_bridge.Core.TagDefinition.{TagDefinition}
use opcua_plc_bridge.Core.WordOrder.{apply_to_bytes}
use opcua_plc_bridge.Core.Registry.{get_tag, get_definition}
use opcua_plc_bridge.Driver.Chrono.{Chrono}
use opcua_plc_bridge.Driver.Error.{DriverError}
use opcua_plc_bridge.Driver.Words.{registers_to_bytes}
use opcua_plc_bridge.Modbus.Mapping.{ModbusFunction, ModbusMapping}
use opcua_plc_bridge.Modbus.Chunks.{Chunk, Part, outside, short, slice, part_of, chunks_of}
use opcua_plc_bridge.Modbus.Groups.{groups_of}
use opcua_plc_bridge.Modbus.Bus.{
  Bus, Device, Run, and_then, each, WriteRequest, Answer, answered, exception, transport, timed_out,
  set_quality, update_good, send_health_event, connect, take_context, put_back,
}
use opcua_plc_bridge.Modbus.Reads.{
  ReadFault, illegal, lost, ignored, classify, apply_existing, apply_defined, apply_part,
  apply_members, mark_members, on_fault, on_read, read_chunk, read_one, read_group, read_function,
  read_all, is_illegal,
}
use opcua_plc_bridge.Modbus.Writes.{
  find_mapping, is_holding, on_exception, on_write, send_words, write_words, write_converted,
  write_mapped, process_write, drain_queue, drain, max_writes,
}
use opcua_plc_bridge.Modbus.Cycle.{run_read_cycle}

module _ {T : Type 0} where
  -- A run that ends with an error has dropped the context.
  FailsClosed : Outcome DriverError (Unit {0}) × Bus T → Type 0
  FailsClosed r = (e : DriverError) → r.0 ≡ err e → r.1.connected ≡ false

  and_then-FailsClosed :
      (r : Outcome DriverError (Unit {0}) × Bus T) (next : Run T)
      → FailsClosed r
      → ((b : Bus T) → FailsClosed (next b))
      → FailsClosed (and_then r next)
  unfolding FailsClosed
  and_then-FailsClosed (ok done, b) next h k = k b
  and_then-FailsClosed (err e, b) next h k = h

  ok-FailsClosed : (b : Bus T) → FailsClosed (ok tt, b)
  unfolding FailsClosed
  ok-FailsClosed b e h = cc

  err-FailsClosed : (e : DriverError) (b : Bus T) → FailsClosed (err e, take_context b)
  unfolding FailsClosed take_context
  err-FailsClosed x b e h = refl

  each-connected :
      {A : Type 0} (body : A → Run T)
      → ((x : A) (b : Bus T) → (body x b).1.connected ≡ b.connected)
      → (xs : List A) (b : Bus T) → (each body xs b).1.connected ≡ b.connected
  unfolding each
  each-connected body k [] b = refl
  each-connected body k (x ∷ xs) b = next (body x b) (k x b) (each-connected body k xs)
    where
      next :
          (r : Outcome DriverError (Unit {0}) × Bus T)
          → r.1.connected ≡ b.connected
          → ((b : Bus T) → (each body xs b).1.connected ≡ b.connected)
          → (and_then r (each body xs)).1.connected ≡ b.connected
      next (ok done, b1) e rest = rest b1 ∙ e
      next (err x, b1) e rest = e

module _ {T : Type 0} (chrono : Chrono T) (clock : ℕ → T) where
  connected-apply_defined :
      (id : Str) (d : Outcome CoreError TagDefinition) (o : Outcome DriverError (TagValue T))
      (b : Bus T)
      → (apply_defined chrono clock id d o b).connected ≡ b.connected
  unfolding set_quality update_good
  connected-apply_defined id (err e) o b = refl
  connected-apply_defined id (ok d) o b = existing (get_tag b.registry id) o
    where
      existing :
          (t : Outcome CoreError (Tag T)) (o : Outcome DriverError (TagValue T))
          → (apply_existing chrono clock id t o b).connected ≡ b.connected
      existing (err e) o = refl
      existing (ok t) (ok v) = refl
      existing (ok t) (err e) = refl

  connected-apply_members :
      (raw : List ℕ) (c : Chunk) (ms : List ModbusMapping) (b : Bus T)
      → (apply_members chrono clock raw c ms b).connected ≡ b.connected
  unfolding apply_members set_quality
  connected-apply_members raw c [] b = refl
  connected-apply_members raw c (m ∷ ms) b =
      connected-apply_members raw c ms _ ∙ here (part_of raw c m)
    where
      here : (p : Part) → (apply_part chrono clock m p b).connected ≡ b.connected
      here outside = refl
      here short = refl
      here (slice bytes) = connected-apply_defined m.tag_id (get_definition b.registry m.tag_id) _ b

  connected-mark_members :
      (q : TagQuality) (ms : List ModbusMapping) (b : Bus T)
      → (mark_members chrono clock q ms b).connected ≡ b.connected
  unfolding mark_members set_quality
  connected-mark_members q [] b = refl
  connected-mark_members q (m ∷ ms) b = connected-mark_members q ms _

  connected-on_fault :
      (f : ReadFault) (text : Str) (ms : List ModbusMapping) (b : Bus T)
      → (on_fault chrono clock f text ms b).1.connected ≡ b.connected
  unfolding on_fault send_health_event
  connected-on_fault illegal text ms b = connected-mark_members TagQuality.config_error ms b
  connected-on_fault lost text ms b = connected-mark_members TagQuality.comm_lost ms b
  connected-on_fault ignored text ms b = refl

  connected-on_read :
      (r : Outcome Str (List ℕ)) (c : Chunk) (ms : List ModbusMapping) (b : Bus T)
      → (on_read chrono clock r c ms b).1.connected ≡ b.connected
  unfolding on_read
  connected-on_read (ok raw) c ms b = connected-apply_members raw c ms b
  connected-on_read (err text) c ms b = connected-on_fault (classify text) text ms b

  on_exception-FailsClosed :
      (i : Bool) (m : ModbusMapping) (req : WriteRequest T) (emsg : Str) (b : Bus T)
      → FailsClosed (on_exception chrono clock i m req emsg b)
  unfolding on_exception
  on_exception-FailsClosed true m req emsg b = ok-FailsClosed _
  on_exception-FailsClosed false m req emsg b = err-FailsClosed _ _

  on_write-FailsClosed :
      (m : ModbusMapping) (req : WriteRequest T) (a : Answer (Unit {0})) (b : Bus T)
      → FailsClosed (on_write chrono clock m req a b)
  unfolding on_write
  on_write-FailsClosed m req (answered done) b = ok-FailsClosed _
  on_write-FailsClosed m req (exception emsg) b =
      on_exception-FailsClosed (is_illegal emsg) m req emsg b
  on_write-FailsClosed m req (transport t) b = err-FailsClosed _ _
  on_write-FailsClosed m req timed_out b = err-FailsClosed _ _

  module _ (device : Device) where
    write_converted-FailsClosed :
        (m : ModbusMapping) (req : WriteRequest T) (o : Outcome DriverError (List ℕ)) (b : Bus T)
        → FailsClosed (write_converted chrono clock device m req o b)
    unfolding write_converted write_words send_words
    write_converted-FailsClosed m req (err e) b = ok-FailsClosed _
    write_converted-FailsClosed m req (ok words) b =
        if-both (is_holding m.function) FailsClosed
          (if-both (length (apply_to_bytes m.byte_order (registers_to_bytes words)) % 2 == 0)
            FailsClosed (on_write-FailsClosed m req _ _) (ok-FailsClosed _))
          (ok-FailsClosed _)

    write_mapped-FailsClosed :
        (om : Option ModbusMapping) (req : WriteRequest T) (b : Bus T)
        → FailsClosed (write_mapped chrono clock device om req b)
    unfolding write_mapped
    write_mapped-FailsClosed none req b = ok-FailsClosed _
    write_mapped-FailsClosed (some m) req b =
        if-both m.writable FailsClosed (write_converted-FailsClosed m req _ b) (ok-FailsClosed _)

    drain-FailsClosed :
        (ms : List ModbusMapping) (n : ℕ) (b : Bus T)
        → FailsClosed (drain chrono clock device ms n b)
    unfolding drain drain_queue process_write
    drain-FailsClosed ms zero b = ok-FailsClosed b
    drain-FailsClosed ms (suc n) b = next b.queue (drain-FailsClosed ms n)
      where
        next :
            (q : List (WriteRequest T))
            → ((b : Bus T) → FailsClosed (drain chrono clock device ms n b))
            → FailsClosed (drain_queue chrono clock device ms q (drain chrono clock device ms n) b)
        next [] k = ok-FailsClosed b
        next (req ∷ rest) k =
            and_then-FailsClosed _ _ (write_mapped-FailsClosed (find_mapping ms req.tag_id) req _) k

    Settled : Outcome DriverError (Unit {0}) × Bus T → Type 0
    Settled r = FailsClosed r × (r.0 ≡ ok tt → r.1.connected ≡ true)

    read_all-Settled :
        (order : List ModbusFunction) (ms : List ModbusMapping) (b : Bus T)
        → Settled (read_all chrono clock device order ms b)
    unfolding read_all read_function read_group read_one Settled take_context FailsClosed put_back
    read_all-Settled order ms b = finish _ (
        each-connected _
          (λ f.
            each-connected _
              (λ g.
                each-connected _
                  (λ c b. connected-on_read (read_chunk device b.calls f c) c g.members _)
                  (chunks_of f g))
              (groups_of f ms))
          order (take_context (connect b)))
      where
        finish :
            (r : Outcome DriverError (Unit {0}) × Bus T)
            → r.1.connected ≡ (take_context (connect b)).connected
            → Settled (and_then r (λ b. (ok tt, put_back b)))
        finish (ok done, b1) e = (λ x h. cc, λ h. refl)
        finish (err x, b1) e = (λ y h. e, λ h. cc)

    Settled-not_err :
        (r : Outcome DriverError (Unit {0}) × Bus T) → Settled r → r.1.connected ≡ not (is_err r.0)
    unfolding Settled FailsClosed
    Settled-not_err (ok done, b) s = s.1 refl
    Settled-not_err (err e, b) s = s.0 e refl

    -- A cycle that succeeds leaves the driver with a context for the next one, and a cycle that ends
    -- with an error, in its writes or its reads, leaves it without one, so that the next one
    -- connects anew.
    pub run_read_cycle_context :
        (order : List ModbusFunction) (ms : List ModbusMapping) (b : Bus T)
        → (run_read_cycle chrono clock device order ms b).1.connected
          ≡ not (is_err (run_read_cycle chrono clock device order ms b).0)
    unfolding run_read_cycle
    run_read_cycle_context order ms b =
        finish (drain chrono clock device ms max_writes b) (drain-FailsClosed ms max_writes b)
      where
        finish :
            (r : Outcome DriverError (Unit {0}) × Bus T)
            → FailsClosed r
            → (and_then r (read_all chrono clock device order ms)).1.connected
              ≡ not (is_err (and_then r (read_all chrono clock device order ms)).0)
        finish (ok done, b1) h = Settled-not_err _ (read_all-Settled order ms b1)
        finish (err x, b1) h = unfold FailsClosed in h x refl

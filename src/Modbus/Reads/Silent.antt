-- ===== src/Modbus/Reads/Silent.antt =====
-- Reads that fail with a text of no class (driver/modbus/src/driver.rs).
use opcua_plc_bridge.Base.{ℕ, ◌≡◌, refl, ◌∙◌, List, [], ◌∷◌, Str, true, Outcome, ok, err}
use opcua_plc_bridge.Driver.Chrono.{Chrono}
use opcua_plc_bridge.Driver.Error.{DriverError}
use opcua_plc_bridge.Modbus.Mapping.{ModbusFunction, ModbusMapping}
use opcua_plc_bridge.Modbus.Chunks.{Chunk, chunks_of}
use opcua_plc_bridge.Modbus.Groups.{groups_of}
use opcua_plc_bridge.Modbus.Bus.{Bus, Device, Run, and_then, each, connect, take_context, put_back}
use opcua_plc_bridge.Modbus.Reads.{
  ignored, classify, on_fault, on_read, read_chunk, read_one, read_group, read_function, read_all,
}

module _ {T : Type 0} where
  -- The run succeeds and leaves the registry as it was in `b`.
  Silent : Bus T → Outcome DriverError (Unit {0}) × Bus T → Type 0
  Silent b r = (r.0 ≡ ok tt) × (r.1.registry ≡ b.registry)

  and_then-Silent :
      (b : Bus T) (r : Outcome DriverError (Unit {0}) × Bus T) (next : Run T)
      → Silent b r
      → ((b : Bus T) → Silent b (next b))
      → Silent b (and_then r next)
  unfolding Silent
  and_then-Silent b (ok done, b1) next s k = let (done, same) = k b1 in (done, same ∙ s.1)
  and_then-Silent b (err e, b1) next s k = cc

  each-Silent :
      {A : Type 0} (body : A → Run T)
      → ((x : A) (b : Bus T) → Silent b (body x b))
      → (xs : List A) (b : Bus T) → Silent b (each body xs b)
  unfolding each
  each-Silent body k [] b = unfold Silent in (refl, refl)
  each-Silent body k (x ∷ xs) b =
      and_then-Silent b (body x b) (each body xs) (k x b) (each-Silent body k xs)

  and_then-connected :
      (r : Outcome DriverError (Unit {0}) × Bus T)
      → r.0 ≡ ok tt
      → (and_then r (λ b. (ok tt, put_back b))).1.connected ≡ true
  unfolding put_back
  and_then-connected (ok done, b) e = refl
  and_then-connected (err x, b) e = cc

module _ {T : Type 0} (chrono : Chrono T) (clock : ℕ → T) (device : Device) where
  -- Where every read fails with a text that names neither an illegal address nor a device failure
  -- nor a timeout, the read part of a cycle reports success and leaves the registry as it was,
  -- so that each tag keeps its value and its quality, and it keeps the connection.
  pub ignored_reads :
      (order : List ModbusFunction) (ms : List ModbusMapping) (b : Bus T)
      → ((n : ℕ) (f : ModbusFunction) (c : Chunk)
          → (text : Str) × (read_chunk device n f c ≡ err text) × (classify text ≡ ignored))
      → ((read_all chrono clock device order ms b).0 ≡ ok tt)
        × ((read_all chrono clock device order ms b).1.registry ≡ b.registry)
        × ((read_all chrono clock device order ms b).1.connected ≡ true)
  unfolding read_all read_function read_group take_context connect put_back Silent
  ignored_reads order ms b fails =
      let one : (f : ModbusFunction) (g : List ModbusMapping) (c : Chunk) (b : Bus T)
          → Silent b (read_one chrono clock device f g c b) =
        λ f g c b.
          let (text, e, i) = fails b.calls f c in
          unfold read_one on_read on_fault in rw (e, i) (refl, refl) in
      let reads =
        each-Silent (read_function chrono clock device ms)
          (λ f.
            each-Silent (read_group chrono clock device f)
              (λ g.
                each-Silent (read_one chrono clock device f g.members) (one f g.members)
                  (chunks_of f g))
              (groups_of f ms))
          order (take_context (connect b)) in
      let (done, same) =
        and_then-Silent (take_context (connect b)) _ (λ b. (ok tt, put_back b)) reads
          (λ b. (refl, refl)) in
      (done, same, and_then-connected _ reads.0)

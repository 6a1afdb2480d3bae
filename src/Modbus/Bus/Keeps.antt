-- ===== src/Modbus/Bus/Keeps.antt =====
-- Properties of the registry along the parts of a cycle (driver/modbus/src/driver.rs): the two calls
-- that change the registry are `update_tag_value` and `set_tag_quality`.
use opcua_plc_bridge.Base.{ℕ, List, [], ◌∷◌, Str, Option, none, some, Outcome, ok, err}
use opcua_plc_bridge.Core.TagValue.{TagValue, TagQuality}
use opcua_plc_bridge.Core.Registry.{TagRegistry}
use opcua_plc_bridge.Driver.Error.{DriverError}
use opcua_plc_bridge.Modbus.Bus.{
  Bus, Run, WriteFailure, and_then, each, set_quality, update_good, send_reply,
}
use opcua_plc_bridge.Core.Registry.Kept.{IsKept}

module _ {T : Type 0} (P : TagRegistry T → Type 0) where
  -- It holds of the registry that a run leaves.
  abbrev pub After : Outcome DriverError (Unit {0}) × Bus T → Type 0
  After r = P r.1.registry

  abbrev pub Keeps : Run T → Type 0
  Keeps run = (b : Bus T) → P b.registry → P (run b).1.registry

  pub and_then-Keeps :
      (r : Outcome DriverError (Unit {0}) × Bus T) (next : Run T)
      → P r.1.registry
      → Keeps next
      → P (and_then r next).1.registry
  and_then-Keeps (ok done, b) next h k = k b h
  and_then-Keeps (err e, b) next h k = h

  pub each-Keeps :
      {A : Type 0} (body : A → Run T)
      → ((x : A) → Keeps (body x))
      → (xs : List A) → Keeps (each body xs)
  unfolding each
  each-Keeps body k [] b h = h
  each-Keeps body k (x ∷ xs) b h =
      and_then-Keeps (body x b) (each body xs) (k x b h) (each-Keeps body k xs)

  pub send_reply-keeps :
      (c : Option ℕ) (res : Outcome WriteFailure (Unit {0})) (b : Bus T)
      → P b.registry
      → P (send_reply c res b).registry
  unfolding send_reply
  send_reply-keeps none res b h = h
  send_reply-keeps (some c) res b h = h

  module _ (clock : ℕ → T) (k : IsKept P) where
    pub set_quality-keeps :
        (id : Str) (q : TagQuality) (b : Bus T)
        → P b.registry
        → P (set_quality clock id q b).registry
    unfolding set_quality
    set_quality-keeps id q b h = k.by_quality id q (clock b.ticks) b.registry h

    pub update_good-keeps :
        (id : Str) (v : TagValue T) (b : Bus T)
        → P b.registry
        → P (update_good clock id v b).registry
    unfolding update_good
    update_good-keeps id v b h = k.by_update id v TagQuality.good _ _ b.registry h

-- ===== src/Fins/Link/Keeps.antt =====
-- Properties of the registry along the parts of a cycle (driver/fins/src/driver.rs).
use opcua_plc_bridge.Base.{ℕ, Str, Option, none, some, Outcome}
use opcua_plc_bridge.Core.TagValue.{TagValue, TagQuality}
use opcua_plc_bridge.Core.Registry.{TagRegistry}
use opcua_plc_bridge.Core.Registry.Kept.{IsKept}
use opcua_plc_bridge.Fins.Link.{Link, set_quality, update_good, send_reply}

module _ {T : Type 0} (P : TagRegistry T → Type 0) where
  abbrev pub Holds : Link T → Type 0
  Holds b = P b.registry

  pub send_reply-keeps :
      (c : Option ℕ) (res : Outcome Str (Unit {0})) (b : Link T)
      → Holds b
      → Holds (send_reply c res b)
  unfolding send_reply
  send_reply-keeps none res b h = h
  send_reply-keeps (some c) res b h = h

  module _ (clock : ℕ → T) (k : IsKept P) where
    pub set_quality-keeps :
        (id : Str) (q : TagQuality) (b : Link T) → Holds b → Holds (set_quality clock id q b)
    unfolding set_quality
    set_quality-keeps id q b h = k.by_quality id q (clock b.ticks) b.registry h

    pub update_good-keeps :
        (id : Str) (v : TagValue T) (b : Link T) → Holds b → Holds (update_good clock id v b)
    unfolding update_good
    update_good-keeps id v b h = k.by_update id v TagQuality.good _ _ b.registry h

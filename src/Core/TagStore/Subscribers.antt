-- ===== src/Core/TagStore/Subscribers.antt =====
-- core-model/src/tag_store.rs: `TagChange`, and a subscriber's `sync_channel(128)`: what has been
-- sent and not yet received, oldest first, and whether the receiver still exists.
use opcua_plc_bridge.Base.{
  ℕ, ◌≤◌, Bool, true, ◌&&◌, List, [], ◌∷◌, ◌++◌, Str, length, length-append, ltb, arith,
  if◌then◌else◌,
}
use opcua_plc_bridge.Core.Tag.{Tag}

pub record TagChange (T : Type 0) : Type 0 where
  pub tag_id : Str
  pub tag : Tag T

pub record Channel (T : Type 0) : Type 0 where
  pub queue : List (TagChange T)
  pub connected : Bool

-- `sync_channel(128)`
abbrev pub capacity : ℕ
capacity = 128

abbrev pub new_channel : (T : Type 0) → Channel T
new_channel T = record { queue = []; connected = true }

module _ {T : Type 0} where
  -- `tx.try_send(change)`: an event for a full or closed channel is dropped.
  unfoldable pub try_send : TagChange T → Channel T → Channel T
  try_send change c =
      if c.connected && ltb (length c.queue) capacity
      then record c { queue = c.queue ++ (change ∷ []) }
      else c

  abbrev pub IsBounded : Channel T → Type 0
  IsBounded c = length c.queue ≤ capacity

  pub try_send-IsBounded :
      (change : TagChange T) (c : Channel T) → IsBounded c → IsBounded (try_send change c)
  unfolding try_send
  try_send-IsBounded change c h = ground (arith, length-append c.queue (change ∷ []))

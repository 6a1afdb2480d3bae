-- ===== src/Runtime/WriteHandler/Checked.antt =====
-- Which writes reach a driver (runtime/src/write_handler.rs).
use opcua_plc_bridge.Base.{
  ◌≡◌, refl, sym, ap, ◌↔◌, true, Str, Option, none, some, lookup, ◌>>◌, Outcome, ok, err, arith,
}
use opcua_plc_bridge.Core.Error.{tag_not_found, definition_not_found}
use opcua_plc_bridge.Core.TagValue.{TagValue, data_type, same_type_iff}
use opcua_plc_bridge.Core.Tag.{Tag}
use opcua_plc_bridge.Core.TagDefinition.{TagDefinition}
use opcua_plc_bridge.Core.DefinitionStore
use opcua_plc_bridge.Core.TagStore.View.{get-view}
use opcua_plc_bridge.Core.Registry.{TagRegistry}
use opcua_plc_bridge.Core.Registry.Typed.{IsTyped, Agree}
use opcua_plc_bridge.Core.Registry.Seen.{seen}
use opcua_plc_bridge.Server.Error.{ServerError}
use opcua_plc_bridge.Runtime.WriteHandler.{
  Routing, Sender, Sending, Confirmation, Delivery, sent, send_timed_out, send_failed, replied,
  closed, timed_out, check_type, check_writable, find_route, admit, on_confirmation, on_sending,
  on_admitted, handle_write,
}

module _ {T : Type 0} where
  -- The tag is defined and writable, the value has the type of its definition, and the tag has a route.
  abbrev pub IsAllowed : TagRegistry T → Routing → Str → TagValue T → Sender → Type 0
  IsAllowed r routing id value sender =
      (d : TagDefinition) × (lookup id r.definitions ≡ some d)
      × (d.writable ≡ true)
      × (data_type value ≡ d.data_type)
      × (lookup id routing ≡ some sender)

  admitted :
      (id : Str) (value : TagValue T) (sender : Sender) (od : Option TagDefinition)
      (ot : Option (Tag T)) (route : Option Sender)
      → Agree od ot
      → ((check_type id value (elim ot [ some tag ↦ ok tag | none ↦ err (tag_not_found id) ])
            >> (check_writable id (elim od [ some d ↦ ok d | none ↦ err (definition_not_found id) ])
                >> find_route id route))
          ≡ ok sender)
        ↔ ((d : TagDefinition) × (od ≡ some d)
            × (d.writable ≡ true)
            × (data_type value ≡ d.data_type)
            × (route ≡ some sender))
  admitted id value sender none none route a = (λ e. cc, λ (d, e, w, same, f). cc)
  admitted id value sender (some d) (some t) none a = (λ e. ground arith, λ (d2, e, w, same, k). cc)
  admitted id value sender (some d) (some t) (some k) a =
      let types = same_type_iff (data_type t.value) (data_type value) in
      (
        λ e. (d, refl, ground arith, ground (arith, types), ground arith),
        λ (d2, e, w, same, f). ground (arith, types),
      )
  admitted id value sender (some d) none route a = absurd a
  admitted id value sender none (some t) route a = absurd a

  admit_iff :
      (r : TagRegistry T) (routing : Routing) (id : Str) (value : TagValue T) (sender : Sender)
      → IsTyped r
      → (admit r routing id value ≡ ok sender) ↔ IsAllowed r routing id value sender
  unfolding admit DefinitionStore.get_definition
  admit_iff r routing id value sender h = rw (get-view r.tags id h.tags) (
      admitted id value sender (lookup id r.definitions) (seen r id) (lookup id routing)
        (h.agree id))

  -- On a typed registry a write is delivered to a driver only if the tag is defined and writable, the
  -- value has the type of its definition, and the tag's route leads to that driver; what is
  -- delivered is the tag and the value of the request.
  pub handle_write-IsAllowed :
      (r : TagRegistry T) (routing : Routing) (id : Str) (value : TagValue T) (sending : Sending)
      (confirmation : Confirmation) (d : Delivery T)
      → IsTyped r
      → (handle_write r routing id value sending confirmation).1 ≡ some d
      → IsAllowed r routing id value d.sender × (d.tag_id ≡ id) × (d.value ≡ value)
  unfolding handle_write on_admitted on_sending
  handle_write-IsAllowed r routing id value sending confirmation d h e =
      let (admitted_as, same_id, same_value) =
        delivered (admit r routing id value) sending confirmation e in
      ((admit_iff r routing id value d.sender h).0 admitted_as, same_id, same_value)
    where
      delivered :
          (o : Outcome ServerError Sender) (s : Sending) (c : Confirmation)
          → (on_admitted o id value s c).1 ≡ some d
          → (o ≡ ok d.sender) × (d.tag_id ≡ id) × (d.value ≡ value)
      delivered (err x) s c e = cc
      delivered (ok k) sent c e =
          let same : record { sender = k; tag_id = id; value = value } ≡ d = cc in
          (
            ap (λ (x : Delivery T). ok x.sender) same,
            sym (ap (λ (x : Delivery T). x.tag_id) same),
            sym (ap (λ (x : Delivery T). x.value) same),
          )
      delivered (ok k) send_timed_out c e = cc
      delivered (ok k) (send_failed x) c e = cc

  -- On a typed registry a write succeeds exactly when the tag is defined and writable, the value has
  -- the type of its definition, the tag has a route, the driver's queue took the request in time and
  -- the driver confirmed it in time.
  pub handle_write_ok_iff :
      (r : TagRegistry T) (routing : Routing) (id : Str) (value : TagValue T) (sending : Sending)
      (confirmation : Confirmation)
      → IsTyped r
      → ((handle_write r routing id value sending confirmation).0 ≡ ok tt) ↔ (
          ((sender : Sender) × IsAllowed r routing id value sender)
          × (sending ≡ sent)
          × (confirmation ≡ replied (ok tt)))
  unfolding handle_write on_confirmation on_admitted on_sending
  handle_write_ok_iff r routing id value sending confirmation h =
      let (there, back) = succeeded (admit r routing id value) sending confirmation in
      (
        λ e.
            let (k, admitted_as, f, g) = there e in
            ((k, (admit_iff r routing id value k h).0 admitted_as), f, g),
        λ ((k, allowed), f, g). back k ((admit_iff r routing id value k h).1 allowed) (f, g),
      )
    where
      confirmed : (c : Confirmation) → (on_confirmation c ≡ ok tt) ↔ (c ≡ replied (ok tt))
      confirmed (replied (ok done)) = (λ e. refl, λ e. refl)
      confirmed (replied (err x)) = (λ e. cc, λ e. cc)
      confirmed closed = (λ e. cc, λ e. cc)
      confirmed timed_out = (λ e. cc, λ e. cc)

      succeeded :
          (o : Outcome ServerError Sender) (s : Sending) (c : Confirmation)
          → ((on_admitted o id value s c).0 ≡ ok tt
              → (k : Sender) × (o ≡ ok k) × (s ≡ sent) × (c ≡ replied (ok tt)))
            × ((k : Sender)
                → o ≡ ok k
                → (s ≡ sent) × (c ≡ replied (ok tt))
                → (on_admitted o id value s c).0 ≡ ok tt)
      succeeded (err x) s c = (λ e. cc, λ k e rest. cc)
      succeeded (ok k) sent c =
          (λ e. (k, refl, refl, (confirmed c).0 e), λ k2 e (f, g). (confirmed c).1 g)
      succeeded (ok k) send_timed_out c = (λ e. cc, λ k2 e (f, g). cc)
      succeeded (ok k) (send_failed x) c = (λ e. cc, λ k2 e (f, g). cc)

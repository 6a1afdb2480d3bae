-- ===== src/Runtime/WriteHandler/Client.antt =====
-- What a client's write does (opcua-server/src/native.rs, runtime/src/write_handler.rs).
use opcua_plc_bridge.Base.{
  ◌≡◌, refl, ◌∙◌, ap, sym, ◌↔◌, Bool, true, false, Str, Option, none, some, Outcome, ok, err,
  lookup, if◌then◌else◌, some-injective, Outcome-cases, inl, inr,
}
use opcua_plc_bridge.Core.TagDefinition.{TagDefinition}
use opcua_plc_bridge.Core.TagValue.{TagValue}
use opcua_plc_bridge.Core.DefinitionStore
use opcua_plc_bridge.Core.Registry.{TagRegistry, get_definition}
use opcua_plc_bridge.Core.Registry.Typed.{IsTyped}
use opcua_plc_bridge.Core.Registry.Seen.{get_definition-found}
use opcua_plc_bridge.Server.Config.{WriteMode}
use opcua_plc_bridge.Server.Error.{ServerError}
use opcua_plc_bridge.Server.Variant.{Ua, Variant, variant_to_tagvalue}
use opcua_plc_bridge.Server.Variant.RoundTrip.{variant_to_tagvalue-type}
use opcua_plc_bridge.Server.DataSource.{
  bad_internal_error, BridgeWrite, Reply, received, timed_out, on_reply, send_value,
  write_converted, write_defined, write,
}
use opcua_plc_bridge.Runtime.WriteHandler.{
  Routing, Sender, Sending, Confirmation, sent, replied, handle_write,
}
use opcua_plc_bridge.Runtime.WriteHandler.Checked.{IsAllowed, handle_write_ok_iff}

module _ {T S D B : Type 0} (ua : Ua T S D B) where
  -- The write thread: it calls the handler, and its answer is there in time or not.
  abbrev pub bridge_reply :
      TagRegistry T → Routing → Bool → Sending → Confirmation → BridgeWrite T → Reply
  bridge_reply r routing in_time sending confirmation bw =
      if in_time
      then received (handle_write r routing bw.tag_id bw.value sending confirmation).0
      else timed_out

  -- What it takes for a write to reach its driver and be confirmed.
  pub record IsConfirmed (r : TagRegistry T) (routing : Routing) (id : Str) (x : Variant S D B)
      (in_time : Bool) (sending : Sending) (confirmation : Confirmation) : Type 0 where
    pub definition : TagDefinition
    pub value : TagValue T
    pub sender : Sender
    pub found : lookup id r.definitions ≡ some definition
    pub converts : variant_to_tagvalue ua x definition.data_type ≡ ok value
    pub writable : definition.writable ≡ true
    pub route : lookup id routing ≡ some sender
    pub prompt : in_time ≡ true
    pub enqueued : sending ≡ sent
    pub answered : confirmation ≡ replied (ok tt)

  replied_ok :
      (answer : BridgeWrite T → Reply) (in_time : Bool) (o : Outcome ServerError (Unit {0}))
      → (on_reply ua answer (if in_time then received o else timed_out) ≡ ok tt)
        ↔ ((in_time ≡ true) × (o ≡ ok tt))
  replied_ok answer true (ok done) = (λ e. (refl, refl), λ e. refl)
  replied_ok answer true (err x) = (λ e. cc, λ (f, g). cc)
  replied_ok answer false o = (λ e. cc, λ (f, g). cc)

  module _ (r : TagRegistry T) (routing : Routing) (id : Str) (x : Variant S D B) (in_time : Bool)
      (sending : Sending) (confirmation : Confirmation) where
    reply : BridgeWrite T → Reply
    reply = bridge_reply r routing in_time sending confirmation

    write_value_ok_iff :
        (v : TagValue T)
        → IsTyped r
        → ((write_converted ua reply WriteMode.confirmed_ack true id (ok v)).0 ≡ ok tt) ↔ (
            ((sender : Sender) × IsAllowed r routing id v sender)
            × (sending ≡ sent)
            × (confirmation ≡ replied (ok tt))
            × (in_time ≡ true))
    unfolding write_converted send_value reply
    write_value_ok_iff v h =
        let handled = handle_write_ok_iff r routing id v sending confirmation h in
        let answer =
          replied_ok reply in_time (handle_write r routing id v sending confirmation).0 in
        (
          λ e.
              let (prompt, fine) = answer.0 e in
              let (allowed, f, g) = handled.0 fine in (allowed, f, g, prompt),
          λ (allowed, f, g, prompt). answer.1 (prompt, handled.1 (allowed, f, g)),
        )

    confirmed :
        IsTyped r
        → (od : Option TagDefinition) → lookup id r.definitions ≡ od
        → (write_defined ua reply WriteMode.confirmed_ack true id x (get_definition r id)).0 ≡ ok tt
        → IsConfirmed r routing id x in_time sending confirmation
    unfolding write_defined DefinitionStore.get_definition write_converted
    confirmed h none e w = let refused : err bad_internal_error ≡ ok tt = rw e at w in cc
    confirmed h (some d) e w = elim (Outcome-cases (variant_to_tagvalue ua x d.data_type)) [
      | inr (text, no_) ↦ let refused : err bad_internal_error ≡ ok tt = rw (e, no_) at w in cc
      | inl (v, converts) ↦
          let ((sender, (d2, found, writable, same, route)), enqueued, answered, prompt) =
            (write_value_ok_iff v h).0 (rw (e, converts) at w) in
          record {
            definition = d;
            value = v;
            sender = sender;
            found = e;
            converts = converts;
            writable =
                ap (λ (y : TagDefinition). y.writable) (some-injective (sym e ∙ found)) ∙ writable;
            route = route;
            prompt = prompt;
            enqueued = enqueued;
            answered = answered;
          }
    ]

  -- In the mode ConfirmedAck, with the write thread running, a client's write of a variant on a typed
  -- registry succeeds exactly when the tag is defined and writable, the variant has the type of the
  -- definition, the tag has a route, the driver's queue takes the request in time, the driver
  -- confirms it in time, and the answer is back in time.
  pub client_write_ok_iff :
      (r : TagRegistry T) (routing : Routing) (id : Str) (x : Variant S D B) (in_time : Bool)
      (sending : Sending) (confirmation : Confirmation)
      → IsTyped r
      → ((write ua
            (bridge_reply r routing in_time sending confirmation)
            r
            WriteMode.confirmed_ack
            true
            id
            (some x)).0
          ≡ ok tt)
        ↔ IsConfirmed r routing id x in_time sending confirmation
  unfolding write write_defined
  client_write_ok_iff r routing id x in_time sending confirmation h = (
    λ e.
        confirmed r routing id x in_time sending confirmation h (lookup id r.definitions) refl
          (unfold write_defined reply in e),
    λ c.
        unfold reply in
        rw (get_definition-found r id c.definition c.found, c.converts)
          ((write_value_ok_iff r routing id x in_time sending confirmation c.value h).1 (
            (
              c.sender,
              (
                c.definition,
                c.found,
                c.writable,
                variant_to_tagvalue-type ua x c.definition.data_type c.value c.converts,
                c.route,
              ),
            ),
            c.enqueued,
            c.answered,
            c.prompt,
          )),
  )

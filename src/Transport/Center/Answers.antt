-- ===== src/Transport/Center/Answers.antt =====
-- The switch, from the HTTP request to the calls of resources behind it.
use sentinel_cpp.Prelude.{
  ℕ, ◌≡◌, refl, ◌∙◌, arith, Bool, true, false, none, some, ◌++◌, String, Double,
}
use sentinel_cpp.Log.Format.{Text}
use sentinel_cpp.Transport.{CommandRequest, get_param, codes}
use sentinel_cpp.Transport.Uri.{Evhttp, success_request}
use sentinel_cpp.Transport.Uri.Target.{last_value, get_param-add_params}
use sentinel_cpp.Transport.Handlers.{
  command_name, set_switch_status_handle, get_switch_status_handle, HandlerState, Platform, handle,
}
use sentinel_cpp.Transport.Center.{
  new_center, register_command, register_all, all_commands, reply_of, handle_response,
  on_http_request,
}
use sentinel_cpp.Transport.Center.Routes.{request_of, get_routed}
use sentinel_cpp.Slot.Entry.{EntryType}
use sentinel_cpp.Slot.Chain.{chain_entry}
use sentinel_cpp.Param.Cache.{Cache}
use sentinel_cpp.Sph.{
  World, EntryResult, new_entry, set_last, global_slot_chain, answer, sph_u_entry,
}

-- The text of a Boolean.
abbrev pub bool_text : Bool → Text
bool_text true = codes "true"
bool_text false = codes "false"

abbrev pub status_text : Bool → Text
status_text true = codes "enabled"
status_text false = codes "disabled"

module _ {C D : Type 0} ⦃d : Double D⦄ (ops : Cache C) (ev : Evhttp) (p : Platform D) where
  -- What a call of a resource does while the switch is on, and while it is off: then it passes, and
  -- no slot sees it.
  abbrev pub call_under : Bool → String → EntryType → World C D → EntryResult × World C D
  call_under true resource t w = answer ops (
      chain_entry set_last (global_slot_chain ops)
        (record w { entry = new_entry resource t w.now; node = none }))
  call_under false resource t w =
      let e = record (new_entry resource t w.now) { exited = true } in
      (record { entry = some e; blocked_reason = none }, record w { entry = e })

  -- The request of a URI whose last `value` is on or off.
  switch_handled :
      (on : Bool) (request : CommandRequest) (st : HandlerState)
      → get_param (codes "value") request ≡ bool_text on
      → set_switch_status_handle request st ≡ (
        record { success = true; result = codes "Sentinel has been " ++ status_text on },
        record st { activated = on },
      )
  unfolding set_switch_status_handle
  switch_handled true request st h = rw (set_switch_status_handle, h) refl
  switch_handled false request st h = rw (set_switch_status_handle, h) refl

  switch_set :
      (on : Bool) (now : ℕ) (query input : Text) (st : HandlerState)
      → last_value (codes "value") (ev.parse_query (codes "/setSwitch?" ++ query))
        ≡ some (bool_text on)
      → on_http_request ev p now
          (record { uri = codes "/setSwitch?" ++ query; is_post = false; input_buffer = input })
          (register_all all_commands new_center)
          st
        ≡ some (
          success_request ev (codes "Sentinel has been " ++ status_text on),
          record st { activated = on },
        )
  unfolding register_all register_command command_name reply_of handle handle_response
  switch_set on now query input st h =
      let uri : Text = codes "/setSwitch?" ++ query in
      let request = request_of ev p (codes "setSwitch") uri in
      let value : get_param (codes "value") request ≡ bool_text on =
        get_param-add_params (codes "value") (ev.parse_query uri) _ refl ∙ rw h refl in
      get_routed ev p now (codes "setSwitch") query input (register_all all_commands new_center) st
        (ground arith) (omega arith)
      ∙ rw (switch_handled on request st value) refl

  -- With the commands that Initialize registers: after the request for /setSwitch whose last
  -- `value` is "true" or "false", the reply is a 200, /getSwitch reports the new status whatever is
  -- asked with it, and a call of any resource goes through the slots if the switch is on, and else
  -- passes with an entry that is exited, and no slot sees it.
  pub switch_governs_calls :
      (on : Bool) (now now' : ℕ) (query query' input input' : Text) (st : HandlerState)
      → (resource : String) (t : EntryType) (w : World C D)
      → last_value (codes "value") (ev.parse_query (codes "/setSwitch?" ++ query))
        ≡ some (bool_text on)
      → (st' : HandlerState) × (on_http_request ev p now
            (record { uri = codes "/setSwitch?" ++ query; is_post = false; input_buffer = input })
            (register_all all_commands new_center)
            st
          ≡ some (success_request ev (codes "Sentinel has been " ++ status_text on), st'))
        × (on_http_request ev p now'
              (record {
                uri = codes "/getSwitch?" ++ query';
                is_post = false;
                input_buffer = input';
              })
              (register_all all_commands new_center)
              st'
            ≡ some (success_request ev (codes "Sentinel status: " ++ status_text on), st'))
        × (sph_u_entry ops st'.activated resource t w ≡ call_under on resource t w)
  unfolding register_all register_command command_name reply_of handle handle_response
      get_switch_status_handle sph_u_entry
  switch_governs_calls on now now' query query' input input' st resource t w h = (
    record st { activated = on },
    switch_set on now query input st h,
    get_routed ev p now' (codes "getSwitch") query' input' (register_all all_commands new_center)
          (record st { activated = on }) (ground arith) (omega arith)
        ∙ reported on,
    called on,
  )
    where
      reported :
          (b : Bool)
          → reply_of ev p (some (get_switch_status_handle (record st { activated = b })))
            ≡ some (
              success_request ev (codes "Sentinel status: " ++ status_text b),
              record st { activated = b },
            )
      reported true = refl
      reported false = refl

      called : (b : Bool) → sph_u_entry ops b resource t w ≡ call_under b resource t w
      called true = refl
      called false = refl

-- ===== src/Transport/Center/Routes.antt =====
-- Which command answers a request.
use sentinel_cpp.Prelude.{
  ℕ, ◌^◌, ◌<◌, ◌≡◌, refl, ap, ◌∙◌, if◌then◌else◌, true, false, Option, none, some, Option-cases,
  Bool-cases, inl, inr, List, [], ◌∷◌, ◌++◌, length, Double,
}
use sentinel_cpp.Log.Format.{Text, IsPlain}
use sentinel_cpp.Log.Text.{text_eq}
use sentinel_cpp.Transport.{
  CommandRequest, CommandResponse, of_failure, new_request, set_body, add_metadata, get_metadata,
  request_target, find_key, codes,
}
use sentinel_cpp.Transport.Uri.{
  Evhttp, HttpRequest, HttpReply, target_of, substr, find_byte, add_params, parse_request_uri,
  parse_post_data, parse_http_request, bad_request,
}
use sentinel_cpp.Transport.Uri.Target.{
  target_total, target_of_path, add_params-metadata, find_key-put_key,
}
use sentinel_cpp.Transport.Handlers.{
  CommandHandler, fetch_metric_log, fetch_cluster_node, set_switch_status, get_switch_status,
  version, command_name, HandlerState, Platform, handle,
}
use sentinel_cpp.Transport.Center.{
  HttpCommandCenter, new_center, register_command, register_all, dispatch, reply_of,
  handle_response, on_http_request,
}

-- No command has the empty name.
command_name_lem : (handler : CommandHandler) → text_eq (command_name handler) [] ≡ false
unfolding command_name
command_name_lem fetch_metric_log = refl
command_name_lem fetch_cluster_node = refl
command_name_lem set_switch_status = refl
command_name_lem get_switch_status = refl
command_name_lem version = refl

register_command_nameless :
    (handler : CommandHandler) (c : HttpCommandCenter)
    → find_key [] c.handler_map ≡ none
    → find_key [] (register_command handler c).1.handler_map ≡ none
unfolding register_command
register_command_nameless handler c h =
    elim (Option-cases (find_key (command_name handler) c.handler_map)) [
      | inl e ↦ rw (e, register_command, command_name_lem handler) h
      | inr (old, e) ↦ rw (e, register_command) h
    ]

pub register_all_nameless :
    (handlers : List CommandHandler) (c : HttpCommandCenter)
    → find_key [] c.handler_map ≡ none
    → find_key [] (register_all handlers c).handler_map ≡ none
unfolding register_all
register_all_nameless [] c h = h
register_all_nameless (handler ∷ handlers) c h =
    register_all_nameless handlers (register_command handler c).1
      (register_command_nameless handler c h)

module _ {D : Type 0} ⦃d : Double D⦄ (ev : Evhttp) (p : Platform D) where
  -- What a command gets of a URI with a target.
  abbrev pub request_of : Text → Text → CommandRequest
  request_of target uri =
      add_params (ev.parse_query uri)
        (record { metadata = (request_target, target) ∷ []; parameters = []; body = uri })

  parse_target :
      (target uri : Text)
      → target_of uri ≡ some target
      → parse_request_uri ev uri new_request ≡ some (request_of target uri)
  unfolding parse_request_uri add_metadata
  parse_target target uri h = rw (parse_request_uri, h) refl

  target_of_request :
      (target uri : Text) → get_metadata request_target (request_of target uri) ≡ target
  unfolding get_metadata
  target_of_request target uri =
      rw
        (
          get_metadata,
          add_params-metadata (ev.parse_query uri)
              (record { metadata = (request_target, target) ∷ []; parameters = []; body = uri }),
        )
        refl

  on_parsed :
      (now : ℕ) (http_req : HttpRequest) (request : CommandRequest) (c : HttpCommandCenter)
      → (st : HandlerState) → parse_http_request ev http_req ≡ some request
      → on_http_request ev p now http_req c st ≡ reply_of ev p (dispatch ev p now request c st)
  unfolding on_http_request
  on_parsed now http_req request c st h = rw (on_http_request, h) refl

  -- The reply by the command that is found, or the one that names the target.
  abbrev pub routed :
      ℕ
      → Text
      → CommandRequest
      → HandlerState
      → Option CommandHandler
      → Option (HttpReply × HandlerState)
  routed now target request st none =
      some (bad_request ev (codes "Unknown command: " ++ target), st)
  routed now target request st (some handler) = reply_of ev p (handle p handler now request st)

  dispatched :
      (now : ℕ) (target : Text) (request : CommandRequest) (c : HttpCommandCenter)
      → (st : HandlerState) → get_metadata request_target request ≡ target
      → reply_of ev p (dispatch ev p now request c st)
        ≡ routed now target request st (find_key target c.handler_map)
  unfolding dispatch reply_of handle_response
  dispatched now target request c st h =
      let found = get_metadata request_target request in
      rw (← h) (go found (find_key found c.handler_map))
    where
      go :
          (t : Text) (o : Option CommandHandler)
          → reply_of ev p (elim o as (λ _. Option (CommandResponse × HandlerState)) [
            | none ↦ some (of_failure (codes "Unknown command: " ++ t), st)
            | some handler ↦ handle p handler now request st
          ])
            ≡ routed now t request st o
      go t none = refl
      go t (some handler) = refl

  -- A request that is not a POST, of a path with a query behind it, is answered by the command that
  -- is registered under the path's name, with the parameters of the URI, and else by a 400 that
  -- names it, which changes nothing.
  pub get_routed :
      (now : ℕ) (name query input : Text) (c : HttpCommandCenter) (st : HandlerState)
      → IsPlain b'?' name
      → length name < 2 ^ 63
      → let uri = b'/' ∷ name ++ b'?' ∷ query in
        on_http_request ev p now (record { uri = uri; is_post = false; input_buffer = input }) c st
        ≡ routed now name (request_of name uri) st (find_key name c.handler_map)
  unfolding parse_http_request
  get_routed now name query input c st h lt =
      let uri : Text = b'/' ∷ name ++ b'?' ∷ query in
      on_parsed now (record { uri = uri; is_post = false; input_buffer = input })
        (request_of name uri) c st
        (rw (parse_http_request, parse_target name uri (target_of_path name query h lt)) refl)
      ∙ dispatched now name (request_of name uri) c st (target_of_request name uri)

  -- The target of a POST is the one of the URI that its input is made to.
  post_target :
      (request : CommandRequest)
      → (request' : CommandRequest) × (parse_request_uri ev (codes "/?%") request ≡ some request')
        × (get_metadata request_target request' ≡ [])
  unfolding parse_request_uri target_of substr find_byte get_metadata add_metadata
  post_target request =
      let uri : Text = codes "/?%" in
      let placed = add_metadata request_target [] (set_body uri request) in
      (
        add_params (ev.parse_query uri) placed,
        refl,
        rw
            (
              get_metadata,
              add_params-metadata (ev.parse_query uri) placed,
              find_key-put_key request_target request_target [] request.metadata,
            )
            refl,
      )

  -- A POST never gets to a command: with an input it is a write behind the end of a vector, and
  -- without one it is answered by a 400 and changes nothing, whatever its URI and its commands are.
  pub post_unknown :
      (now : ℕ) (http_req : HttpRequest) (handlers : List CommandHandler) (st : HandlerState)
      → http_req.is_post ≡ true
      → on_http_request ev p now http_req (register_all handlers new_center) st ≡ (
          if text_eq http_req.input_buffer []
          then some (bad_request ev (codes "Unknown command: "), st)
          else none)
  unfolding on_http_request parse_http_request parse_post_data
  post_unknown now http_req handlers st h =
      let (target, e) = target_total http_req.uri in
      let c = register_all handlers new_center in
      let first = parse_target target http_req.uri e in
      let (request, again, nameless) = post_target (request_of target http_req.uri) in
      elim (Bool-cases (text_eq http_req.input_buffer [])) [
        | inl empty ↦ rw empty (
            on_parsed now http_req request c st
              (rw (parse_http_request, first, h, parse_post_data, empty) again)
            ∙ dispatched now [] request c st nameless
            ∙ ap (routed now [] request st) (register_all_nameless handlers new_center refl))
        | inr full ↦
            rw (full, on_http_request, parse_http_request, first, h, parse_post_data, full) refl
      ]

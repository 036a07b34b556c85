-- ===== src/Transport/Center.antt =====
-- sentinel-core/transport/command: http_command_center.h and .cc, and http_server_init_target.cc: the
-- commands by their names, and the answer to an HTTP request.
pub mod Routes
pub mod Answers
use sentinel_cpp.Prelude.{
  ℕ, ◌++◌, if◌then◌else◌, Bool, true, false, Option, none, some, List, [], ◌∷◌, Double,
}
use sentinel_cpp.Log.Format.{Text}
use sentinel_cpp.Transport.{
  CommandRequest, CommandResponse, get_metadata, request_target, of_failure, find_key, codes,
}
use sentinel_cpp.Transport.Uri.{
  Evhttp, HttpRequest, HttpReply, parse_http_request, success_request, bad_request,
}
use sentinel_cpp.Transport.Handlers.{
  CommandHandler, fetch_metric_log, fetch_cluster_node, set_switch_status, get_switch_status,
  version, command_name, HandlerState, Platform, handle,
}

-- Whether the pointer to the server is set, and the handlers.
pub record HttpCommandCenter : Type 0 where
  pub has_server : Bool
  pub handler_map : List (Text × CommandHandler)

abbrev pub new_center : HttpCommandCenter
new_center = record { has_server = false; handler_map = [] }

-- RegisterCommand, of a handler that is not null; `emplace` has a new key.
unfoldable pub register_command : CommandHandler → HttpCommandCenter → Bool × HttpCommandCenter
unfolding command_name
register_command handler c = elim (find_key (command_name handler) c.handler_map) [
  | some old ↦ (false, c)
  | none ↦ (true, record c { handler_map = (command_name handler, handler) ∷ c.handler_map })
]

-- Start, with whether a server starts at a port.
unfoldable pub start : (ℕ → Bool) → ℕ → HttpCommandCenter → Bool × HttpCommandCenter
start server_start port c =
    if c.has_server then (false, c) else (server_start port, record c { has_server = true })

-- The port, for the variable of the environment and SimpleAtoi to a `uint32_t`.
unfoldable pub get_available_port : (Text → Option ℕ) → Option Text → ℕ
get_available_port simple_atou32 none = 8718
get_available_port simple_atou32 (some v) = elim (simple_atou32 v) [
  | none ↦ 8718
  | some port ↦ port
]

-- HttpCommandCenterInitTarget::Initialize
unfoldable pub register_all : List CommandHandler → HttpCommandCenter → HttpCommandCenter
unfolding register_command
register_all [] c = c
register_all (handler ∷ handlers) c = register_all handlers (register_command handler c).1

abbrev pub all_commands : List CommandHandler
all_commands =
    fetch_metric_log ∷ fetch_cluster_node ∷ set_switch_status ∷ get_switch_status ∷ version ∷ []

unfoldable pub initialize_center :
    (ℕ → Bool) → (Text → Option ℕ) → Option Text → HttpCommandCenter → Bool × HttpCommandCenter
unfolding register_all start get_available_port
initialize_center server_start simple_atou32 port_env c =
    start server_start (get_available_port simple_atou32 port_env) (register_all all_commands c)

-- HandleResponse
unfoldable pub handle_response : Evhttp → CommandResponse → HttpReply
handle_response ev response =
    if response.success then success_request ev response.result else bad_request ev response.result

module _ {D : Type 0} ⦃d : Double D⦄ (ev : Evhttp) (p : Platform D) where
  -- What OnHttpRequest does with a request that was parsed.
  unfoldable pub dispatch :
      ℕ
      → CommandRequest
      → HttpCommandCenter
      → HandlerState
      → Option (CommandResponse × HandlerState)
  unfolding get_metadata
  dispatch now request c st =
      let target = get_metadata request_target request in
      elim (find_key target c.handler_map) [
        | none ↦ some (of_failure (codes "Unknown command: " ++ target), st)
        | some handler ↦ handle p handler now request st
      ]

  -- The reply to what a handler gives.
  unfoldable pub reply_of :
      Option (CommandResponse × HandlerState) → Option (HttpReply × HandlerState)
  unfolding handle_response
  reply_of none = none
  reply_of (some (response, st)) = some (handle_response ev response, st)

  -- OnHttpRequest: the reply, and what is left.
  unfoldable pub on_http_request :
      ℕ → HttpRequest → HttpCommandCenter → HandlerState → Option (HttpReply × HandlerState)
  unfolding dispatch reply_of
  on_http_request now http_req c st = elim (parse_http_request ev http_req) [
    | none ↦ none
    | some request ↦ reply_of (dispatch now request c st)
  ]

-- ===== src/Transport/Uri.antt =====
-- sentinel-core/transport/command/http_command_utils.h and .cc: from an HTTP request to a command's
-- request, and the replies. `none` is a `std::out_of_range`, or a write behind the end of a vector.
pub mod Target
use sentinel_cpp.Prelude.{
  ℕ, zero, suc, ◌+◌, ◌^◌, ◌==◌, ltb, if◌then◌else◌, Bool, true, false, Option, none, some, List, [],
  ◌∷◌, length, sub64,
}
use sentinel_cpp.Log.Format.{Text}
use sentinel_cpp.Log.Text.{text_eq}
use sentinel_cpp.Log.Stream.{drop}
use sentinel_cpp.Transport.{
  CommandRequest, new_request, set_body, add_param, add_metadata, request_target, codes,
}

-- `find` and `find_last_of` of a byte in a text; `none` is `npos`.
unfoldable pub find_byte : ℕ → Text → Option ℕ
find_byte c [] = none
find_byte c (x ∷ s) =
    let rest = find_byte c s in
    if x == c then some 0 else elim rest [ none ↦ none | some i ↦ some (i + 1) ]

unfoldable pub find_last_byte : ℕ → Text → Option ℕ
find_last_byte c [] = none
find_last_byte c (x ∷ s) = elim (find_last_byte c s) [
  | some i ↦ some (i + 1)
  | none ↦ if x == c then some 0 else none
]

-- The first bytes of a text.
unfoldable pub take : ℕ → Text → Text
take n [] = []
take zero (c ∷ s) = []
take (suc n) (c ∷ s) = c ∷ take n s

-- `substr`
unfoldable pub substr : Text → ℕ → ℕ → Option Text
unfolding take
substr s pos count = if ltb (length s) pos then none else some (take count (drop pos s))

-- The target in a URI.
unfoldable pub target_of : Text → Option Text
unfolding find_byte find_last_byte substr
target_of uri =
    let start = find_byte b'/' uri in
    let ask : Option ℕ = elim (find_byte b'?' uri) [
      | none ↦ find_last_byte b' ' uri
      | some i ↦ some i
    ] in
    substr uri (elim start [ none ↦ 0 | some i ↦ i + 1 ])
      (elim ask [ none ↦ length uri | some i ↦ sub64 i 1 ])

-- The loop over the pairs of a query.
unfoldable pub add_params : List (Text × Text) → CommandRequest → CommandRequest
unfolding add_param
add_params [] request = request
add_params ((key, value) ∷ params) request = add_params params (add_param key value request)

-- The fields of an `evhttp_request`: its command is POST or another.
pub record HttpRequest : Type 0 where
  pub uri : Text
  pub is_post : Bool
  pub input_buffer : Text

-- A reply with its code and reason.
pub record HttpReply : Type 0 where
  pub code : ℕ
  pub reason : Text
  pub content : Text

-- What it takes from libevent: the pairs of evhttp_parse_query, and what evbuffer_add_printf writes
-- for a format without arguments.
pub record Evhttp : Type 0 where
  pub parse_query : Text → List (Text × Text)
  pub printf : Text → Text

module _ (ev : Evhttp) where
  -- ParseRequestUri
  unfoldable pub parse_request_uri : Text → CommandRequest → Option CommandRequest
  unfolding target_of add_params add_metadata
  parse_request_uri uri request = elim (target_of uri) [
    | none ↦ none
    | some target ↦ some (
        add_params (ev.parse_query uri) (add_metadata request_target target (set_body uri request)))
  ]

  -- ParsePostData: the vector stays empty, and the copy writes behind its end.
  unfoldable pub parse_post_data : Text → CommandRequest → Option CommandRequest
  unfolding parse_request_uri
  parse_post_data input request =
      if text_eq input [] then parse_request_uri (codes "/?%") request else none

  unfoldable pub parse_http_request : HttpRequest → Option CommandRequest
  unfolding parse_request_uri parse_post_data
  parse_http_request http_req = elim (parse_request_uri http_req.uri new_request) [
    | none ↦ none
    | some request ↦
        if http_req.is_post then parse_post_data http_req.input_buffer request else some request
  ]

  abbrev pub success_request : Text → HttpReply
  success_request msg = record { code = 200; reason = codes "OK"; content = ev.printf msg }

  abbrev pub bad_request : Text → HttpReply
  bad_request msg = record { code = 400; reason = codes "Bad Request"; content = ev.printf msg }

  abbrev pub internal_error : Text → HttpReply
  internal_error msg = record {
    code = 500;
    reason = codes "Internal Server Error";
    content = ev.printf msg;
  }

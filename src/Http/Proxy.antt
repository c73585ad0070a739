-- ===== src/Http/Proxy.antt =====
-- Lab 1/proxy_server/proxy.go: one connection of the proxy. What net/http does is the parameter
-- `Net`; a header maps a name to its values.
pub mod Relay
use tda596_labs.Base.{
  GoEq-string, ℕ, String, Bool, Option, none, some, List, [], ◌∷◌, ◌++◌, ◌==◌, if◌then◌else◌,
  length,
}
use tda596_labs.Base.Dict.{lookup, insert}
use tda596_labs.Http.{Bytes, bytes_of, sent_length, Header, Request, Response}

-- The request that the proxy sends.
pub record Target : Type 0 where
  pub verb : String
  pub url : String
  pub header : Header

pub record Net : Type 0 where
  -- http.CanonicalHeaderKey, which Header.Add applies to the name
  pub canonical : String → String
  -- whether http.NewRequest takes the method and the URL
  pub valid : String → String → Bool
  -- client.Do
  pub send : Target → Option Response

abbrev pub values_or_nil : Option (List String) → List String
values_or_nil none = []
values_or_nil (some vs) = vs

unfoldable pub write_proxy_response : ℕ → String → Bytes → Response
write_proxy_response code kind text = record {
  status = code;
  content_type = kind;
  content_length = sent_length text;
  content = text;
}

module _ (net : Net) where
  open net use {canonical, valid, send}

  -- Header.Add
  unfoldable pub add : String → String → Header → Header
  add name value header =
      insert (canonical name) (values_or_nil (lookup (canonical name) header) ++ value ∷ []) header

  -- The inner loop that copies the headers.
  unfoldable pub add_values : String → List String → Header → Header
  add_values name [] header = header
  add_values name (value ∷ values) header = add_values name values (add name value header)

  -- The outer loop.
  unfoldable pub copy_headers : Header → Header → Header
  copy_headers [] header = header
  copy_headers ((name, values) ∷ entries) header =
      copy_headers entries (add_values name values header)

  -- The request that is sent, where there is one.
  unfoldable pub target_request : Request → Option Target
  target_request client =
      if valid client.verb client.uri
      then some
          (record { verb = client.verb; url = client.uri; header = copy_headers client.header [] })
      else none

  unfoldable pub forward_request : Request → Option Response
  forward_request client = elim (target_request client) [ none ↦ none | some target ↦ send target ]

  -- The response that is written to the client's connection.
  unfoldable pub handle_proxy_connection : Option Request → Response
  handle_proxy_connection none = write_proxy_response 400 "text/plain" (bytes_of "Bad Request")
  handle_proxy_connection (some client) =
      if client.verb == "GET"
      then (elim (forward_request client) [
        | none ↦ write_proxy_response 502 "text/plain" (bytes_of "Bad Gateway")
        | some response ↦ response
      ])
      else write_proxy_response 501 "text/plain" (bytes_of "Not Implemented")

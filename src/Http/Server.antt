-- ===== src/Http/Server.antt =====
-- Lab 1/server/http_server.go: the handlers, over a store that maps a file's name to its bytes.
-- A connection is what http.ReadRequest makes of it: a request, or `none` for an error. The system's
-- answers and the Unicode tables behind strings.ToLower are the parameter `Os`.
use Prim.Native.Char.{code}
use tda596_labs.Base.{
  GoEq-string, ℕ, String, Bool, true, false, ◌||◌, Option, none, some, List, [], ◌∷◌, nat_eq, ◌==◌,
  if◌then◌else◌,
}
use tda596_labs.Base.Dict.{lookup, insert}
use tda596_labs.Base.Run.{Run, ok, panic, ◌>>=◌}
use tda596_labs.Http.{Bytes, bytes_of, sent_length, Request, Response}

abbrev pub Store : Type 0
Store = List (String × Bytes)

pub record Os : Type 0 where
  -- strings.ToLower
  pub to_lower : String → String
  -- whether os.Open of a file that exists, io.ReadAll and os.Create succeed
  pub can_open : String → Bool
  pub can_read : String → Bool
  pub can_create : String → Bool

abbrev pub content_types : List (String × String)
content_types =
    (".html", "text/html")
    ∷ (".txt", "text/plain")
    ∷ (".gif", "image/gif")
    ∷ (".jpeg", "image/jpeg")
    ∷ (".jpg", "image/jpeg")
    ∷ (".css", "text/css")
    ∷ []

-- A dot or a slash is in the text.
abbrev pub has_stop : String → Bool
has_stop String.[] = false
has_stop (String.◌∷◌ c s) = nat_eq (code c) 46 || nat_eq (code c) 47 || has_stop s

-- filepath.Ext: from the last dot on, if no slash follows it.
unfoldable pub ext : String → String
ext String.[] = ""
ext (String.◌∷◌ c s) =
    if has_stop s then ext s else if nat_eq (code c) 46 then String.◌∷◌ c s else ""

abbrev pub is_some : Option String → Bool
is_some none = false
is_some (some a) = true

-- `"." + request.URL.Path`
abbrev pub file_path : Request → String
file_path request = String.◌∷◌ "." request.path

unfoldable pub write_response : ℕ → String → Bytes → Response
write_response code kind text = record {
  status = code;
  content_type = kind;
  content_length = sent_length text;
  content = text;
}

module _ (os : Os) where
  open os use {to_lower, can_open, can_read, can_create}

  unfoldable pub is_allowed_file_type : String → Bool
  unfolding ext
  is_allowed_file_type name = is_some (lookup (to_lower (ext name)) content_types)

  -- log.Fatal on a file type that is not in the table.
  unfoldable pub get_content_type : String → Run String
  unfolding ext
  get_content_type name = elim (lookup (to_lower (ext name)) content_types) [
    | none ↦ panic
    | some kind ↦ ok kind
  ]

  -- os.Open
  unfoldable pub open_file : String → Store → Option Bytes
  open_file name store = if can_open name then lookup name store else none

  unfoldable pub handle_get_request : Request → Store → Run (Response × Store)
  handle_get_request request store =
      let name = file_path request in
      if is_allowed_file_type name
      then (elim (open_file name store) [
        | none ↦ ok (write_response 404 "text/plain" (bytes_of "Not Found"), store)
        | some text ↦
            if can_read name
            then (get_content_type name >>= λ kind. ok (write_response 200 kind text, store))
            else ok (write_response 500 "text/plain" (bytes_of "Internal Server Error"), store)
      ])
      else ok (write_response 400 "text/plain" (bytes_of "Bad Request"), store)

  unfoldable pub handle_post_request : Request → Store → Response × Store
  handle_post_request request store =
      let name = file_path request in
      if is_allowed_file_type name
      then (if can_create name
          then (if request.whole
              then (
                write_response 201 "text/plain" (bytes_of "File created successfully"),
                insert name request.body store,
              )
              else (
                write_response 500 "text/plain" (bytes_of "Internal Server Error"),
                insert name request.body store,
              ))
          else (write_response 500 "text/plain" (bytes_of "Internal Server Error"), store))
      else (write_response 400 "text/plain" (bytes_of "Bad Request"), store)

  unfoldable pub handle_connection : Option Request → Store → Run (Response × Store)
  handle_connection none store =
      ok (write_response 400 "text/plain" (bytes_of "Bad Request"), store)
  handle_connection (some request) store =
      if request.verb == "GET"
      then handle_get_request request store
      else if request.verb == "POST"
      then ok (handle_post_request request store)
      else ok (write_response 501 "text/plain" (bytes_of "Not Implemented"), store)

  -- Connections that are handled one after the other.
  unfoldable pub serve : List (Option Request) → Store → Run (List Response × Store)
  serve [] store = ok ([], store)
  serve (conn ∷ conns) store = do
    (response, store') ← handle_connection conn store
    (responses, last) ← serve conns store'
    ok (response ∷ responses, last)

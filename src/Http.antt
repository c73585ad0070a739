-- ===== src/Http.antt =====
-- Lab 1: what the HTTP server and the proxy share of net/http: a parsed request and a response.
pub mod Server
pub mod Answers
pub mod Files
pub mod Pool
pub mod Proxy
mod Tests
use Prim.Native.Char.{code}
use tda596_labs.Base.{ℕ, String, Bool, Option, none, some, List, [], ◌∷◌}

abbrev pub Bytes : Type 0
Bytes = List ℕ

-- The bytes of a text in ASCII.
abbrev pub bytes_of : String → Bytes
bytes_of String.[] = []
bytes_of (String.◌∷◌ c s) = code c ∷ bytes_of s

abbrev pub Header : Type 0
Header = List (String × List String)

pub record Request : Type 0 where
  -- Method, URL.Path and RequestURI
  pub verb : String
  pub path : String
  pub uri : String
  pub header : Header
  -- what io.Copy takes from the body, and whether it gets to the body's end
  pub body : Bytes
  pub whole : Bool

-- What http.Response.Write sends: the status line's number, Content-Type, Content-Length if there is
-- one, and the body.
pub record Response : Type 0 where
  pub status : ℕ
  pub content_type : String
  pub content_length : Option ℕ
  pub content : Bytes

-- The Content-Length that http.Response.Write sends for a response whose field ContentLength was not
-- set: it goes by that field and leaves the entry of the header map out. Only an empty body has a
-- length then; any other ends where the connection is closed.
abbrev pub sent_length : Bytes → Option ℕ
sent_length [] = some 0
sent_length (b ∷ bytes) = none

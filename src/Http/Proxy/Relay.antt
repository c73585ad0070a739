-- ===== src/Http/Proxy/Relay.antt =====
-- What Lab 1/proxy_server/proxy.go sends to the target and what it writes back.
use mathlib.Core.List.{append-nil, append_assoc}
use tda596_labs.Base.{
  GoEq-string, String, true, none, some, List, [], ◌∷◌, ◌++◌, ◌≡◌, ◌≢◌, refl, All, ap, sym, arith,
  str_eq_iff,
}
use tda596_labs.Base.Dict.{lookup, insert}
use tda596_labs.Http.{Header, Request, Response}
use tda596_labs.Http.Proxy.{
  Net, add, add_values, copy_headers, target_request, forward_request, handle_proxy_connection,
  write_proxy_response,
}

abbrev Absent : String → String × List String → Type 0
Absent name entry = entry.0 ≢ name

Absent-append :
    (name own : String) (values : List String) (header : Header)
    → All (Absent name) header
    → own ≢ name
    → All (Absent name) (header ++ (own, values) ∷ [])
Absent-append name own values [] a ne = (ne, tt)
Absent-append name own values (e ∷ header) a ne = (a.0, Absent-append name own values header a.1 ne)

lookup-Absent :
    (name : String) (header : Header) → All (Absent name) header → lookup name header ≡ none
unfolding lookup
lookup-Absent name [] a = refl
lookup-Absent name ((own, values) ∷ header) a =
    grind (arith, a.0, str_eq_iff own name, lookup-Absent name header a.1)

insert-Absent :
    (name : String) (new : List String) (header : Header)
    → All (Absent name) header
    → insert name new header ≡ header ++ (name, new) ∷ []
unfolding insert
insert-Absent name new [] a = refl
insert-Absent name new ((own, values) ∷ header) a =
    grind (arith, a.0, str_eq_iff name own, insert-Absent name new header a.1)

lookup-last :
    (name : String) (values : List String) (header : Header)
    → All (Absent name) header
    → lookup name (header ++ (name, values) ∷ []) ≡ some values
unfolding lookup
lookup-last name values [] a = grind (arith, str_eq_iff name name)
lookup-last name values ((own, old) ∷ header) a =
    grind (arith, a.0, str_eq_iff own name, lookup-last name values header a.1)

insert-last :
    (name : String) (new values : List String) (header : Header)
    → All (Absent name) header
    → insert name new (header ++ (name, values) ∷ []) ≡ header ++ (name, new) ∷ []
unfolding insert
insert-last name new values [] a = grind (arith, str_eq_iff name name)
insert-last name new values ((own, old) ∷ header) a =
    grind (arith, a.0, str_eq_iff name own, insert-last name new values header a.1)

-- A header as net/http hands it to a handler: each name once, in canonical form, with a value.
pub data IsParsed (net : Net) : Header → Type 0 where
  nothing : IsParsed net []
  entry :
      {name first : String} {rest : List String} {entries : Header}
      → net.canonical name ≡ name
      → All (Absent name) entries
      → IsParsed net entries
      → IsParsed net ((name, first ∷ rest) ∷ entries)

module _ (net : Net) where
  -- The header so far, and then this entry.
  abbrev with_entry : Header → String → List String → Header
  with_entry header name values = header ++ (name, values) ∷ []

  add-first :
      (name value : String) (header : Header)
      → net.canonical name ≡ name
      → All (Absent name) header
      → add net name value header ≡ with_entry header name (value ∷ [])
  unfolding add
  add-first name value header e a =
      rw (e, lookup-Absent name header a) (insert-Absent name (value ∷ []) header a)

  add-next :
      (name value : String) (values : List String) (header : Header)
      → net.canonical name ≡ name
      → All (Absent name) header
      → add net name value (with_entry header name values)
        ≡ with_entry header name (values ++ value ∷ [])
  unfolding add
  add-next name value values header e a =
      rw (e, lookup-last name values header a)
        (insert-last name (values ++ value ∷ []) values header a)

  add_values_lem :
      (name : String) (values before : List String) (header : Header)
      → net.canonical name ≡ name
      → All (Absent name) header
      → add_values net name values (with_entry header name before)
        ≡ with_entry header name (before ++ values)
  unfolding add_values
  add_values_lem name [] before header e a = ap (with_entry header name) (sym (append-nil before))
  add_values_lem name (value ∷ values) before header e a =
      rw (add-next name value before header e a) (
        rw
          (
            add_values_lem name values (before ++ value ∷ []) header e a,
            append_assoc before (value ∷ []) values,
          )
          refl)

  -- None of the second header's names is in the first one.
  abbrev Apart : Header → Header → Type 0
  Apart header = All (λ entry. All (Absent entry.0) header)

  Apart-entry :
      (name : String) (values : List String) (header entries : Header)
      → Apart header entries
      → All (Absent name) entries
      → Apart (with_entry header name values) entries
  Apart-entry name values header [] a new = tt
  Apart-entry name values header ((own, old) ∷ entries) a new = (
    Absent-append own name values header a.0 (λ e. new.0 (sym e)),
    Apart-entry name values header entries a.1 new.1,
  )

  copy_headers_lem :
      {entries : Header} (header : Header)
      → IsParsed net entries
      → Apart header entries
      → copy_headers net entries header ≡ header ++ entries
  unfolding copy_headers add_values
  copy_headers_lem header nothing a = sym (append-nil header)
  copy_headers_lem header
        (entry {name = name} {first = first} {rest = rest} {entries = entries} e new p) a =
      rw (add-first name first header e a.0, add_values_lem name rest (first ∷ []) header e a.0)
        (rw (copy_headers_lem _ p (Apart-entry name (first ∷ rest) header entries a.1 new))
          (append_assoc header _ entries))

  Apart-nil : (entries : Header) → Apart [] entries
  Apart-nil [] = tt
  Apart-nil (e ∷ entries) = (tt, Apart-nil entries)

  -- A GET request whose header is as net/http parses it (each name once, canonical, with a value) and
  -- whose URI is valid is sent on with the same method, URI and header. If that gets a response, the
  -- client is sent just this response, and otherwise one with status 502.
  pub request_relayed :
      (client : Request)
      → client.verb ≡ "GET"
      → IsParsed net client.header
      → net.valid "GET" client.uri ≡ true
      → ((response : Response)
          → net.send (record { verb = "GET"; url = client.uri; header = client.header })
            ≡ some response
          → handle_proxy_connection net (some client) ≡ response)
        × (net.send (record { verb = "GET"; url = client.uri; header = client.header }) ≡ none
            → (handle_proxy_connection net (some client)).status ≡ 502)
  unfolding handle_proxy_connection forward_request target_request write_proxy_response
  request_relayed client get parsed valid =
      let copied = copy_headers_lem [] parsed (Apart-nil client.header) in
      (
        λ response sent.
            rw (get, handle_proxy_connection, forward_request, target_request, valid, copied, sent)
              refl,
        λ sent.
            rw (get, handle_proxy_connection, forward_request, target_request, valid, copied, sent)
              refl,
      )

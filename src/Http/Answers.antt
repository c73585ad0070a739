-- ===== src/Http/Answers.antt =====
-- What one connection of Lab 1/server/http_server.go is answered, and what it does to the files.
use tda596_labs.Base.{
  GoEq-string, ℕ, Bool, nat_eq, ◌||◌, String, true, false, Option, none, some, ◌≡◌, ◌⊎◌, refl, ◌==◌,
  inl, inr, arith, if-elim, Option-cases, str_eq, str_eq_iff, Bool-cases,
}
use tda596_labs.Base.Dict.{lookup, insert, lookup-insert}
use tda596_labs.Base.Run.{ok, Returns}
use tda596_labs.Http.{Bytes, Request, Response}
use tda596_labs.Http.Server.{
  Os, Store, content_types, ext, file_path, write_response, is_allowed_file_type, get_content_type,
  open_file, handle_get_request, handle_post_request, handle_connection,
}

abbrev pub is_status : ℕ → Bool
is_status n =
    nat_eq n 200 || nat_eq n 201 || nat_eq n 400 || nat_eq n 404 || nat_eq n 500 || nat_eq n 501

-- A type that the table has for some file.
abbrev pub IsListed : String → Type 0
IsListed kind = (suffix : String) × (lookup suffix content_types ≡ some kind)

plain-IsListed : IsListed "text/plain"
unfolding lookup
plain-IsListed = (".txt", refl)

-- One of the server's status codes, with a type from the table.
abbrev pub IsProper : Response → Type 0
IsProper response = (is_status response.status ≡ true) × IsListed response.content_type

-- A POST whose body, as far as it was read, is this text.
abbrev pub IsPost : Bytes → Option Request → Type 0
IsPost text none = ⊥
IsPost text (some request) = (request.verb ≡ "POST") × (request.body ≡ text)

module _ (os : Os) where
  -- Files of other types than the table's are as they were.
  abbrev pub Guarded : Store → Store → Type 0
  Guarded store last =
      (name : String) → is_allowed_file_type os name ≡ false → lookup name last ≡ lookup name store

  -- A file of one of the table's types holds this text.
  abbrev pub Holds : Store → Bytes → Type 0
  Holds store text =
      (name : String) × (is_allowed_file_type os name ≡ true) × (lookup name store ≡ some text)

  -- A response and the files that are left: what is sent with status 200 is what a file of one of the
  -- table's types holds, and such a file holds what it held before or what a POST has put there.
  pub record IsAnswer (conn : Option Request) (store : Store) (answer : Response × Store)
      : Type 0 where
    pub proper : IsProper answer.0
    pub guarded : Guarded store answer.1
    pub sent : answer.0.status ≡ 200 → Holds store answer.0.content
    pub origin : (text : Bytes) → Holds answer.1 text → Holds store text ⊎ IsPost text conn

  unchanged :
      (conn : Option Request) (response : Response) (store : Store)
      → IsProper response
      → (response.status ≡ 200 → Holds store response.content)
      → IsAnswer conn store (response, store)
  unchanged conn response store h sent = record {
    proper = h;
    guarded = λ q other. refl;
    sent = sent;
    origin = λ text holds. inl holds;
  }

  -- A plain text with a status that is not 200.
  refused :
      (conn : Option Request) (code : ℕ) (text : Bytes) (store : Store)
      → is_status code ≡ true
      → nat_eq code 200 ≡ false
      → IsAnswer conn store (write_response code "text/plain" text, store)
  unfolding write_response
  refused conn code text store known other =
      unchanged conn (write_response code "text/plain" text) store (known, plain-IsListed)
        (λ e. absurd (grind (arith, e, other)))

  lookup-of_open_file :
      (name : String) (store : Store) {text : Bytes}
      → open_file os name store ≡ some text
      → lookup name store ≡ some text
  unfolding open_file
  lookup-of_open_file name store e = ground arith

  content_type-of_allowed :
      (name : String)
      → is_allowed_file_type os name ≡ true
      → (kind : String) × IsListed kind × (get_content_type os name ≡ ok kind)
  unfolding is_allowed_file_type get_content_type
  content_type-of_allowed name h =
      elim (Option-cases (lookup (os.to_lower (ext name)) content_types)) [
        | inl e ↦ absurd (grind (arith, e, h))
        | inr (kind, e) ↦ (kind, (os.to_lower (ext name), e), rw (e, get_content_type) refl)
      ]

  written :
      (request : Request) (code : ℕ) (text : Bytes) (store : Store)
      → request.verb ≡ "POST"
      → is_status code ≡ true
      → nat_eq code 200 ≡ false
      → is_allowed_file_type os (file_path request) ≡ true
      → IsAnswer
          (some request)
          store
          (write_response code "text/plain" text, insert (file_path request) request.body store)
  unfolding write_response
  written request code text store post known other allowed =
      let name = file_path request in
      record {
        proper = (known, plain-IsListed);
        guarded = λ q h.
            grind (arith, lookup-insert name q request.body store, str_eq_iff name q, h, allowed);
        sent = λ e. absurd (grind (arith, e, other));
        origin = λ held (q, h, at).
            let found = lookup-insert name q request.body store in
            elim (Bool-cases (str_eq name q)) [
              | inl same ↦ inr (post, grind (arith, found, at, same))
              | inr else_where ↦ inl (q, h, grind (arith, found, at, else_where))
            ];
      }

  handle_get_request-IsAnswer :
      (request : Request) (store : Store)
      → Returns (IsAnswer (some request) store) (handle_get_request os request store)
  unfolding handle_get_request write_response
  handle_get_request-IsAnswer request store =
      let name = file_path request in
      let conn = some request in
      if-elim (Returns (IsAnswer conn store)) (is_allowed_file_type os name)
        (λ allowed. elim (Option-cases (open_file os name store)) [
          | inl e ↦ rw (e) (refused conn 404 _ store refl refl)
          | inr (text, e) ↦ rw (e) (
              if-elim (Returns (IsAnswer conn store)) (os.can_read name)
                (λ h.
                  let (kind, listed, typed) = content_type-of_allowed name allowed in
                  rw (typed) (
                    unchanged conn _ store (refl, listed)
                      (λ code. (name, allowed, lookup-of_open_file name store e))))
                (λ h. refused conn 500 _ store refl refl))
        ])
        (λ h. refused conn 400 _ store refl refl)

  handle_post_request-IsAnswer :
      (request : Request) (store : Store)
      → request.verb ≡ "POST"
      → IsAnswer (some request) store (handle_post_request os request store)
  unfolding handle_post_request
  handle_post_request-IsAnswer request store post =
      let name = file_path request in
      let conn = some request in
      if-elim (IsAnswer conn store) (is_allowed_file_type os name)
        (λ allowed.
          if-elim (IsAnswer conn store) (os.can_create name)
            (λ can.
              if-elim (IsAnswer conn store) request.whole
                (λ h. written request 201 _ store post refl refl allowed)
                (λ h. written request 500 _ store post refl refl allowed))
            (λ h. refused conn 500 _ store refl refl))
        (λ h. refused conn 400 _ store refl refl)

  pub handle_connection-IsAnswer :
      (conn : Option Request) (store : Store)
      → Returns (IsAnswer conn store) (handle_connection os conn store)
  unfolding handle_connection
  handle_connection-IsAnswer none store = refused none 400 _ store refl refl
  handle_connection-IsAnswer (some request) store =
      if-elim (Returns (IsAnswer (some request) store)) (request.verb == "GET")
        (λ h. handle_get_request-IsAnswer request store)
        (λ h.
          if-elim (Returns (IsAnswer (some request) store)) (request.verb == "POST")
            (λ post.
              handle_post_request-IsAnswer request store ((str_eq_iff request.verb "POST").0 post))
            (λ h'. refused (some request) 501 _ store refl refl))

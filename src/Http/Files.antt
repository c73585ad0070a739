-- ===== src/Http/Files.antt =====
-- What the handlers of Lab 1/server/http_server.go answer, and what they do to the files.
use tda596_labs.Base.{
  GoEq-string, String, true, Option, some, List, [], ◌∷◌, ◌≡◌, ◌⊎◌, refl, length, inl, inr, arith,
  suc, All, ap, ◌∙◌, str_eq_iff,
}
use tda596_labs.Base.Dict.{lookup, insert, lookup-insert}
use tda596_labs.Base.Run.{ok, Returns, Returns-bind}
use tda596_labs.Http.{Bytes, bytes_of, Request, Response}
use tda596_labs.Http.Answers.{
  IsProper, IsPost, Guarded, Holds, IsAnswer, handle_connection-IsAnswer,
}
use tda596_labs.Http.Server.{
  Os, Store, content_types, ext, file_path, write_response, is_allowed_file_type, get_content_type,
  open_file, handle_get_request, handle_post_request, handle_connection, serve, is_some,
}

-- One of these connections is a POST whose body, as far as it was read, is this text.
abbrev pub IsPosted : Bytes → List (Option Request) → Type 0
IsPosted text [] = ⊥
IsPosted text (conn ∷ conns) = IsPost text conn ⊎ IsPosted text conns

module _ (os : Os) where
  -- What is sent with status 200 was in a file of one of the table's types, or was posted.
  abbrev pub HasSource : List (Option Request) → Store → Response → Type 0
  HasSource conns store response =
      response.status ≡ 200 → Holds os store response.content ⊎ IsPosted response.content conns

  -- As many responses as connections, each proper and with a source, and the files of other types
  -- untouched.
  pub record IsServed (conns : List (Option Request)) (store : Store) (out : List Response × Store)
      : Type 0 where
    pub one_each : length out.0 ≡ length conns
    pub proper : All IsProper out.0
    pub guarded : Guarded os store out.1
    pub sent : All (HasSource conns store) out.0

  HasSource-later :
      (conn : Option Request) (conns : List (Option Request)) (store : Store)
      (answer : Response × Store) (responses : List Response)
      → IsAnswer os conn store answer
      → All (HasSource conns answer.1) responses
      → All (HasSource (conn ∷ conns) store) responses
  HasSource-later conn conns store answer [] a sent = tt
  HasSource-later conn conns store answer (response ∷ responses) a sent = (
    λ code. elim (sent.0 code) [
      | inl holds ↦ elim (a.origin response.content holds) [
        | inl before ↦ inl before
        | inr post ↦ inr (inl post)
      ]
      | inr later ↦ inr (inr later)
    ],
    HasSource-later conn conns store answer responses a sent.1,
  )

  -- Whatever connections come, one after the other, the server does not end by log.Fatal. It writes
  -- one response to each, with one of its six status codes and a type that the table has. What it sends
  -- with status 200 is what a file of one of the table's types held at the start, or what was read of
  -- the body of one of the POSTs. A file of any other type is afterwards what it was before.
  pub serve-IsServed :
      (conns : List (Option Request)) (store : Store)
      → Returns (IsServed conns store) (serve os conns store)
  unfolding serve
  serve-IsServed [] store = record {
    one_each = refl;
    proper = tt;
    guarded = λ q h. refl;
    sent = tt;
  }
  serve-IsServed (conn ∷ conns) store =
      Returns-bind (IsAnswer os conn store) (IsServed (conn ∷ conns) store)
        (handle_connection os conn store) _ (handle_connection-IsAnswer os conn store)
        (λ (response, store') a.
          Returns-bind (IsServed conns store') (IsServed (conn ∷ conns) store)
            (serve os conns store') _ (serve-IsServed conns store')
            (λ (responses, last) s. record {
              one_each = ap suc s.one_each;
              proper = (a.proper, s.proper);
              guarded = λ q h. s.guarded q h ∙ a.guarded q h;
              sent = (
                λ code. inl (a.sent code),
                HasSource-later conn conns store (response, store') responses a s.sent,
              );
            }))

  posted :
      (request : Request) (store : Store) {kind : String}
      → request.verb ≡ "POST"
      → request.whole ≡ true
      → lookup (os.to_lower (ext (file_path request))) content_types ≡ some kind
      → os.can_create (file_path request) ≡ true
      → handle_connection os (some request) store
        ≡ ok (
          write_response 201 "text/plain" (bytes_of "File created successfully"),
          insert (file_path request) request.body store,
        )
  unfolding handle_connection handle_post_request is_allowed_file_type
  posted request store post whole typed c =
      rw (post, typed, is_allowed_file_type, handle_connection, handle_post_request, c, whole) refl

  allowed-of_lookup :
      (name : String) {kind : String}
      → lookup (os.to_lower (ext name)) content_types ≡ some kind
      → (is_allowed_file_type os name ≡ true) × (get_content_type os name ≡ ok kind)
  unfolding is_allowed_file_type get_content_type
  allowed-of_lookup name e = (ap is_some e, rw (e, get_content_type) refl)

  got :
      (name : String) (later : Request) (store : Store) {kind : String} {text : Bytes}
      → later.verb ≡ "GET"
      → file_path later ≡ name
      → lookup (os.to_lower (ext name)) content_types ≡ some kind
      → os.can_open name ≡ true
      → os.can_read name ≡ true
      → lookup name store ≡ some text
      → handle_connection os (some later) store ≡ ok (write_response 200 kind text, store)
  unfolding handle_connection handle_get_request open_file
  got name later store get asked typed o r there =
      let (allowed, kind_of) = allowed-of_lookup name typed in
      rw (get, handle_connection, handle_get_request, asked, allowed)
        (rw (open_file, o, there, asked, r, kind_of) refl)

  -- A POST of a file of an allowed type, whose body arrives whole, creates the file; a GET of the
  -- same path that follows it answers 200 with that body and with the type that the table has for
  -- the file, where the system lets the server create, open and read the file.
  pub get_after_post :
      (request later : Request) (store : Store) (kind : String)
      → request.verb ≡ "POST"
      → later.verb ≡ "GET"
      → later.path ≡ request.path
      → request.whole ≡ true
      → lookup (os.to_lower (ext (file_path request))) content_types ≡ some kind
      → os.can_create (file_path request) ≡ true
      → os.can_open (file_path request) ≡ true
      → os.can_read (file_path request) ≡ true
      → serve os (some request ∷ some later ∷ []) store
        ≡ ok (
          write_response 201 "text/plain" (bytes_of "File created successfully")
              ∷ write_response 200 kind request.body
              ∷ [],
          insert (file_path request) request.body store,
        )
  unfolding serve
  get_after_post request later store kind post get same whole typed c o r =
      let name = file_path request in
      let store' = insert name request.body store in
      let there : lookup name store' ≡ some request.body =
        grind (arith, lookup-insert name name request.body store, str_eq_iff name name) in
      let first = posted request store post whole typed c in
      let second = got name later store' get (ap (λ q. String.◌∷◌ "." q) same) typed o r there in
      rw (serve, first, second) refl

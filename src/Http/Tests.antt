-- ===== src/Http/Tests.antt =====
-- Concrete runs of the server, the pool and the proxy.
use tda596_labs.Base.{
  GoEq-string, ◌<◌, ◌≤◌, String, true, none, some, List, [], ◌∷◌, ◌≡◌, ◌≢◌, str_eq, str_eq_iff,
  refl, if◌then◌else◌, ◌==◌,
}
use tda596_labs.Base.Dict.{lookup, insert}
use tda596_labs.Base.Run.{ok, Returns}
use tda596_labs.Http.{bytes_of, Request, Response}
use tda596_labs.Http.Server.{Os, Store, ext, write_response, serve}
use tda596_labs.Http.Files.{IsServed, serve-IsServed, get_after_post}
use tda596_labs.Http.Pool.{
  Pool, Event, accept, start, release, fresh, step, steps, max_concurrent_requests,
  handlers_bounded,
}
use tda596_labs.Http.Proxy.{Net, handle_proxy_connection}
use tda596_labs.Http.Proxy.Relay.{IsParsed, request_relayed}

abbrev sample_os : Os
sample_os = record {
  to_lower = λ s. if s == ".TXT" then ".txt" else s;
  can_open = λ name. true;
  can_read = λ name. true;
  can_create = λ name. true;
}

abbrev upload : Request
upload = record {
  verb = "POST";
  path = "/a.b/notes.TXT";
  uri = "/a.b/notes.TXT";
  header = [];
  body = 104 ∷ 105 ∷ [];
  whole = true;
}

abbrev secret : Request
secret = record upload { verb = "GET"; path = "/passwd" }

ext_notes : ext "/a.b/notes.TXT" ≡ ".TXT"
unfolding ext
ext_notes = refl

ext_directory : ext "/a.b/notes" ≡ ""
unfolding ext
ext_directory = refl

abbrev some_files : Store
some_files = ("./passwd", 1 ∷ []) ∷ []

serve-IsServed_example :
    Returns
      (IsServed sample_os (some upload ∷ some secret ∷ none ∷ []) some_files)
      (serve sample_os (some upload ∷ some secret ∷ none ∷ []) some_files)
serve-IsServed_example = serve-IsServed sample_os (some upload ∷ some secret ∷ none ∷ []) some_files

get_after_post_example :
    serve sample_os (some upload ∷ some (record upload { verb = "GET" }) ∷ []) some_files
    ≡ ok (
      write_response 201 "text/plain" (bytes_of "File created successfully")
          ∷ write_response 200 "text/plain" (104 ∷ 105 ∷ [])
          ∷ [],
      insert "./a.b/notes.TXT" (104 ∷ 105 ∷ []) some_files,
    )
unfolding ext lookup
get_after_post_example =
    get_after_post sample_os upload (record upload { verb = "GET" }) some_files "text/plain" refl
      refl refl refl refl refl refl refl

-- Three connections come, two handlers start, one of them ends.
abbrev some_events : List Event
some_events = accept ∷ start ∷ accept ∷ start ∷ accept ∷ release ∷ []

abbrev busy : Pool
busy = record { waiting = true; tokens = 1; working = 1; closing = 1 }

some_events-busy : steps some_events fresh ≡ some busy
unfolding steps step
some_events-busy = refl

handlers_bounded_example :
    (busy.working ≤ max_concurrent_requests)
    × (0 < busy.working → (q : Pool) × (step release busy ≡ some q))
    × (busy.waiting ≡ true
        → busy.working < max_concurrent_requests
        → (q : Pool) × (step start busy ≡ some q))
handlers_bounded_example = handlers_bounded some_events some_events-busy

abbrev page : Response
page = write_response 200 "text/html" (60 ∷ 62 ∷ [])

abbrev sample_net : Net
sample_net = record {
  canonical = λ name. if name == "accept" then "Accept" else name;
  valid = λ verb url. true;
  send = λ target. if target.url == "http://host/" then some page else none;
}

abbrev visit : Request
visit = record {
  verb = "GET";
  path = "/";
  uri = "http://host/";
  header = ("Accept", "text/html" ∷ "text/plain" ∷ []) ∷ ("Host", "host" ∷ []) ∷ [];
  body = [];
  whole = true;
}

ne_names : ◌≢◌ {A = String} "Host" "Accept"
ne_names e =
    let same : str_eq "Host" "Accept" ≡ true = (str_eq_iff "Host" "Accept").1 e in absurd (cc)

visit-IsParsed : IsParsed sample_net visit.header
visit-IsParsed = IsParsed.entry refl (ne_names, tt) (IsParsed.entry refl tt IsParsed.nothing)

request_relayed_example :
    ((response : Response)
      → sample_net.send (record { verb = "GET"; url = "http://host/"; header = visit.header })
        ≡ some response
      → handle_proxy_connection sample_net (some visit) ≡ response)
    × (sample_net.send (record { verb = "GET"; url = "http://host/"; header = visit.header }) ≡ none
        → (handle_proxy_connection sample_net (some visit)).status ≡ 502)
request_relayed_example = request_relayed sample_net visit refl visit-IsParsed refl

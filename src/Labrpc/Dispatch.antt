-- ===== src/Labrpc/Dispatch.antt =====
-- That Server.dispatch of Lab 2/src/labrpc/labrpc.go finds the handler that its name means.
use tda596_labs.Base.{
  GoEq-string, suc, String, true, false, none, some, List, [], ◌∷◌, ◌≡◌, ◌≢◌, refl, ◌∙◌, ◌++◌,
  if-elim, arith, ◌==◌, str_eq_iff, equal_self, All,
}
use tda596_labs.Base.Dict.{lookup, lookup-insert}
use tda596_labs.Base.Run.{ok}
use tda596_labs.Labrpc.{Bytes}
use tda596_labs.Labrpc.Server.{
  Method, Service, Server, is_handler, add_methods, make_service, add_service, split,
  dispatch_method, dispatch,
}

-- `service + "." + name`
unfoldable pub dotted : String → String → String
dotted String.[] name = String.◌∷◌ "." name
dotted (String.◌∷◌ c service) name = String.◌∷◌ c (dotted service name)

split-dotted :
    (service name : String) → split name ≡ none → split (dotted service name) ≡ some (service, name)
unfolding split dotted
split-dotted String.[] name h = rw (h, split) refl
split-dotted (String.◌∷◌ c service) name h = rw (split-dotted service name h, split) refl

ne-equal : (s t : String) → s ≢ t → (s == t) ≡ false
ne-equal s t h = grind (arith, str_eq_iff s t, h)

-- The methods do not have this name.
abbrev Other : String → Method → Type 0
Other name m = m.name ≢ name

add_methods-Other :
    (name : String) (ms : List Method) (methods : List (String × Method))
    → All (Other name) ms
    → lookup name (add_methods ms methods) ≡ lookup name methods
unfolding add_methods
add_methods-Other name [] methods h = refl
add_methods-Other name (m ∷ ms) methods h =
    let rest = add_methods-Other name ms _ h.1 in
    rest
    ∙ if-elim (λ table. lookup name table ≡ lookup name methods) (is_handler m)
        (λ suits. lookup-insert m.name name m methods ∙ rw (ne-equal m.name name h.0) refl)
        (λ unfit. refl)

add_methods_lem :
    (before after : List Method) (m : Method) (methods : List (String × Method))
    → is_handler m ≡ true
    → All (Other m.name) after
    → lookup m.name (add_methods (before ++ m ∷ after) methods) ≡ some m
unfolding add_methods
add_methods_lem [] after m methods suits h =
    add_methods-Other m.name after _ h
    ∙ rw (suits) (lookup-insert m.name m.name m methods ∙ rw (equal_self m.name) refl)
add_methods_lem (b ∷ before) after m methods suits h = add_methods_lem before after m _ suits h

dispatch_method-found :
    (svc : Service) (m : Method) (args : Bytes)
    → lookup m.name svc.methods ≡ some m
    → dispatch_method svc m.name args ≡ ok (record { accepted = true; reply = m.call args })
unfolding dispatch_method
dispatch_method-found svc m args e = rw (e, dispatch_method) refl

-- A call by the name of a service, a dot and the name of a method reaches the method: it answers
-- what the method makes of the argument, and the server counts one call more. It does so if the
-- service was made from an object with that method and added to the server, the method is fit for a
-- handler, its name has no dot and no later method has the same name.
pub dispatch_lem :
    (service : String) (before after : List Method) (m : Method) (rs : Server) (args : Bytes)
    → is_handler m ≡ true
    → split m.name ≡ none
    → All (Other m.name) after
    → dispatch
        (add_service (make_service service (before ++ m ∷ after)) rs)
        (dotted service m.name)
        args
      ≡ ok (
        record { accepted = true; reply = m.call args },
        record (add_service (make_service service (before ++ m ∷ after)) rs) {
          count = suc rs.count;
        },
      )
unfolding dispatch add_service make_service
dispatch_lem service before after m rs args suits plain h =
    rw
      (
        split-dotted service m.name plain,
        lookup-insert service service (make_service service (before ++ m ∷ after)) rs.services,
        equal_self service,
        dispatch_method-found (make_service service (before ++ m ∷ after)) m args
            (add_methods_lem before after m [] suits h),
      )
      refl

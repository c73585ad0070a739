-- ===== src/Labrpc/Server.antt =====
-- Lab 2/src/labrpc/labrpc.go: Server and Service. A method of the receiver is what reflect says of it,
-- with the function from the argument's bytes to the reply's bytes that its call amounts to.
use Prim.Native.Char.{code}
use tda596_labs.Base.{
  GoEq-string, ℕ, suc, String, Bool, true, ◌&&◌, Option, none, some, List, [], ◌∷◌, nat_eq,
  if◌then◌else◌,
}
use tda596_labs.Base.Dict.{lookup, insert}
use tda596_labs.Base.Run.{Run, ok, panic, ◌>>=◌, expect}
use tda596_labs.Labrpc.{Bytes, ReplyMsg}

pub record Method : Type 0 where
  pub name : String
  pub exported : Bool
  pub num_in : ℕ
  pub reply_is_pointer : Bool
  pub num_out : ℕ
  pub call : Bytes → Bytes

pub record Service : Type 0 where
  pub name : String
  pub methods : List (String × Method)

pub record Server : Type 0 where
  pub services : List (String × Service)
  pub count : ℕ

unfoldable pub is_handler : Method → Bool
is_handler m = m.exported && nat_eq m.num_in 3 && m.reply_is_pointer && nat_eq m.num_out 0

-- The loop over the receiver's methods.
unfoldable pub add_methods : List Method → List (String × Method) → List (String × Method)
add_methods [] methods = methods
add_methods (m ∷ ms) methods =
    add_methods ms (if is_handler m then insert m.name m methods else methods)

unfoldable pub make_service : String → List Method → Service
make_service name receiver = record { name = name; methods = add_methods receiver [] }

abbrev pub make_server : Server
make_server = record { services = []; count = 0 }

unfoldable pub add_service : Service → Server → Server
add_service svc rs = record rs { services = insert svc.name svc rs.services }

-- The texts before and after the last dot; `none` where strings.LastIndex answers -1.
unfoldable pub split : String → Option (String × String)
split String.[] = none
split (String.◌∷◌ c s) = elim (split s) [
  | none ↦ if nat_eq (code c) 46 then some ("", s) else none
  | some (service, name) ↦ some (String.◌∷◌ c service, name)
]

-- Service.dispatch: log.Fatal on an unknown method.
unfoldable pub dispatch_method : Service → String → Bytes → Run ReplyMsg
dispatch_method svc name args = elim (lookup name svc.methods) [
  | none ↦ panic
  | some method ↦ ok (record { accepted = true; reply = method.call args })
]

-- Server.dispatch: log.Fatal on an unknown service, and a slice out of range where there is no dot.
unfoldable pub dispatch : Server → String → Bytes → Run (ReplyMsg × Server)
dispatch rs svc_meth args = do
  (service_name, method_name) ← expect (split svc_meth)
  service ← expect (lookup service_name rs.services)
  reply ← dispatch_method service method_name args
  ok (reply, record rs { count = suc rs.count })

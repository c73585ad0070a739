-- ===== src/Labrpc.antt =====
-- Lab 2/src/labrpc/labrpc.go: the messages. Values are the bytes that labgob makes of them.
pub mod Server
pub mod Dispatch
pub mod Network
pub mod Request
pub mod Delivery
pub mod Dead
mod Tests
use tda596_labs.Base.{ℕ, String, Bool, false, List, []}

abbrev pub Bytes : Type 0
Bytes = List ℕ

pub record ReqMsg (N : Type 0) : Type 0 where
  pub endname : N
  pub svc_meth : String
  pub args : Bytes

pub record ReplyMsg : Type 0 where
  pub accepted : Bool
  pub reply : Bytes

-- `replyMsg{false, nil}`
abbrev pub no_reply : ReplyMsg
no_reply = record { accepted = false; reply = [] }

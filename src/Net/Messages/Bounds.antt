-- ===== src/Net/Messages/Bounds.antt =====
-- `send_and_log` sends one message, and the other functions none.
use p2psc.Prelude.{none, some, Bytes}
use p2psc.Message.Codec.{JsonLibrary}
use p2psc.Message.Format.{Payload, Message}
use p2psc.Net.Objects.{SocketPtr}
use p2psc.Net.System.{Os}
use p2psc.Net.Run.Bounded.{Bounded, bounded_rules}
use p2psc.Net.Bounds.{quiet}
use p2psc.Net.Socket.Bounds.{send-Bounded, receive-Bounded, destroy-Bounded}
use p2psc.Net.Messages.{send_raw, receive_raw, release, send_and_log, receive_and_log}

module _ ⦃o : Os⦄ where
  pub receive_raw-Bounded : (s : SocketPtr) → Bounded 0 (receive_raw s)
  unfolding receive_raw
  receive_raw-Bounded s = search (bounded_rules, receive-Bounded) depth 14

  send_raw-Bounded : (s : SocketPtr) (m : Bytes) → Bounded 1 (send_raw s m)
  unfolding send_raw
  send_raw-Bounded s m = search (bounded_rules, send-Bounded) depth 14

  pub send_and_log-Bounded :
      {T : Type 0} ⦃m : Payload T⦄ ⦃j : JsonLibrary⦄ (s : SocketPtr) (x : Message T)
      → Bounded 1 (send_and_log s x)
  unfolding send_and_log
  send_and_log-Bounded s x = send_raw-Bounded s _

  pub release-Bounded : (s : SocketPtr) → Bounded 0 (release s)
  unfolding release
  release-Bounded none = search quiet
  release-Bounded (some p) = destroy-Bounded p

module _ {T : Type 0} ⦃m : Payload T⦄ ⦃j : JsonLibrary⦄ ⦃o : Os⦄ where
  pub receive_and_log-Bounded : (s : SocketPtr) → Bounded 0 (receive_and_log {T = T} s)
  unfolding receive_and_log
  receive_and_log-Bounded s = search (bounded_rules, receive_raw-Bounded) depth 14

pub ruleset object_rules = (quiet, receive_raw-Bounded, release-Bounded, receive_and_log-Bounded)

-- ===== src/Net/Messages/Exceptions.antt =====
-- `send_and_log` and `receive_and_log` throw no `ConnectionException`.
use p2psc.Prelude.{none, some, Bytes}
use p2psc.Message.Codec.{JsonLibrary}
use p2psc.Message.Format.{Payload, Message}
use p2psc.Message.Format.Exceptions.{decode-Throws}
use p2psc.Net.Objects.{SocketPtr}
use p2psc.Net.System.{Os}
use p2psc.Net.Run.Throws.{IsPlain, Throws, throws_rules}
use p2psc.Net.Socket.Exceptions.{send-Throws, receive-Throws, destroy-Throws}
use p2psc.Net.Messages.{send_raw, receive_raw, release, send_and_log, receive_and_log}

module _ ⦃o : Os⦄ where
  pub receive_raw-Throws : (s : SocketPtr) → Throws IsPlain (receive_raw s)
  unfolding receive_raw
  receive_raw-Throws s = search (throws_rules, receive-Throws) depth 14

  send_raw-Throws : (s : SocketPtr) (m : Bytes) → Throws IsPlain (send_raw s m)
  unfolding send_raw
  send_raw-Throws s m = search (throws_rules, send-Throws) depth 14

  pub release-Throws : (s : SocketPtr) → Throws IsPlain (release s)
  unfolding release
  release-Throws none = search throws_rules
  release-Throws (some p) = destroy-Throws p

  module _ {T : Type 0} ⦃m : Payload T⦄ ⦃j : JsonLibrary⦄ where
    pub send_and_log-Throws : (s : SocketPtr) (x : Message T) → Throws IsPlain (send_and_log s x)
    unfolding send_and_log
    send_and_log-Throws s x = send_raw-Throws s _

    pub receive_and_log-Throws : (s : SocketPtr) → Throws IsPlain (receive_and_log {T = T} s)
    unfolding receive_and_log
    receive_and_log-Throws s = search (throws_rules, receive_raw-Throws, decode-Throws) depth 14

pub ruleset message_throws =
    (throws_rules, receive_raw-Throws, release-Throws, send_and_log-Throws, receive_and_log-Throws)

-- ===== src/Net/Messages/Safety.antt =====
-- `send_and_log` and `receive_and_log` fail no assertion on a pointer to an object.
use p2psc.Prelude.{ℕ, some, Bytes, List}
use p2psc.Message.Codec.{JsonLibrary}
use p2psc.Message.Format.{Payload, Message}
use p2psc.Net.Objects.{Socket, MediatorConnection}
use p2psc.Net.System.{Os}
use p2psc.Net.Run.{◌>>=◌}
use p2psc.Net.Run.Safe.{Assertion, Keeps, IsPointer}
use p2psc.Net.Run.Safe.Compose.{keeps_rules}
use p2psc.Net.Socket.Safety.{send-Keeps, receive-Keeps}
use p2psc.Net.Messages.{send_raw, receive_raw, send_and_log, receive_and_log}

module _ ⦃o : Os⦄ {P : Assertion} (p : ℕ)
    (pointer : (s : List Socket) (c : MediatorConnection) → P s c → IsPointer p s) where
  pub receive_raw-Keeps : Keeps P (receive_raw (some p))
  unfolding receive_raw ◌>>=◌
  receive_raw-Keeps = receive-Keeps p pointer

  send_raw-Keeps : (m : Bytes) → Keeps P (send_raw (some p) m)
  unfolding send_raw ◌>>=◌
  send_raw-Keeps m = send-Keeps p pointer m

  module _ {T : Type 0} ⦃m : Payload T⦄ ⦃j : JsonLibrary⦄ where
    pub send_and_log-Keeps : (x : Message T) → Keeps P (send_and_log (some p) x)
    unfolding send_and_log
    send_and_log-Keeps x = send_raw-Keeps _

    pub receive_and_log-Keeps : Keeps P (receive_and_log {T = T} (some p))
    unfolding receive_and_log
    receive_and_log-Keeps = search (keeps_rules, receive_raw-Keeps) depth 14

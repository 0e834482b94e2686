-- ===== src/Net/Messages/Silence.antt =====
-- Sending and receiving messages does not call the user's function.
use p2psc.Prelude.{none, some, Bytes}
use p2psc.Message.Codec.{JsonLibrary}
use p2psc.Message.Format.{Payload, Message}
use p2psc.Net.Objects.{SocketPtr}
use p2psc.Net.System.{Os, Trace}
use p2psc.Net.Run.Stable.{Stable}
use p2psc.Net.Silence.{Ignores, effects}
use p2psc.Net.Socket.Silence
use p2psc.Net.Messages.{send_raw, receive_raw, release, send_and_log, receive_and_log}

module _ {P : Trace → Type 0} ⦃i : Ignores P⦄ ⦃o : Os⦄ where
  pub send_raw-Stable : (s : SocketPtr) (m : Bytes) → Stable P (send_raw s m)
  unfolding send_raw
  send_raw-Stable s m = search (effects, Silence.send-Stable) depth 14

  pub receive_raw-Stable : (s : SocketPtr) → Stable P (receive_raw s)
  unfolding receive_raw
  receive_raw-Stable s = search (effects, Silence.receive-Stable) depth 14

  pub release-Stable : (s : SocketPtr) → Stable P (release s)
  unfolding release
  release-Stable none = search effects depth 14
  release-Stable (some p) = search (effects, Silence.destroy-Stable) depth 14

  module _ {T : Type 0} ⦃m : Payload T⦄ ⦃j : JsonLibrary⦄ where
    pub send_and_log-Stable : (s : SocketPtr) (x : Message T) → Stable P (send_and_log s x)
    unfolding send_and_log
    send_and_log-Stable s x = search (effects, send_raw-Stable) depth 14

    pub receive_and_log-Stable : (s : SocketPtr) → Stable P (receive_and_log {T = T} s)
    unfolding receive_and_log
    receive_and_log-Stable s = search (effects, receive_raw-Stable) depth 14

pub ruleset message_effects = (
  effects, send_raw-Stable, receive_raw-Stable, release-Stable, send_and_log-Stable,
  receive_and_log-Stable,
)

-- ===== src/Net/Messages.antt =====
-- include/p2psc/message/message_util.h. Writing to the log is not modelled.
pub mod Silence
pub mod Bounds
pub mod Written
pub mod Delivery
pub mod Keeping
pub mod Transfer
pub mod Safety
pub mod Exceptions
use p2psc.Prelude.{none, some, Bytes}
use p2psc.Message.Codec.{JsonLibrary}
use p2psc.Message.Format.{Payload, Message, message, encode, decode}
use p2psc.Net.Objects.{SocketPtr}
use p2psc.Net.System.{Os}
use p2psc.Net.Run.{Run, pure, lift, not_null, ◌>>=◌}
use p2psc.Net.Socket

module _ ⦃o : Os⦄ where
  -- `socket->send(…)` and `socket->receive()` through a pointer.
  unfoldable pub send_raw : SocketPtr → Bytes → Run (Unit {0})
  send_raw socket raw = do p ← not_null socket; Socket.send p raw

  unfoldable pub receive_raw : SocketPtr → Run Bytes
  receive_raw socket = do p ← not_null socket; Socket.receive p

  -- The last pointer to a socket is gone: the destructor runs.
  unfoldable pub release : SocketPtr → Run (Unit {0})
  release none = pure tt
  release (some p) = Socket.destroy p

module _ {T : Type 0} ⦃m : Payload T⦄ ⦃j : JsonLibrary⦄ ⦃o : Os⦄ where
  unfoldable pub send_and_log : SocketPtr → Message T → Run (Unit {0})
  send_and_log socket message = send_raw socket (encode message.format)

  -- The result is built from the payload: the type that was received is dropped.
  unfoldable pub receive_and_log : SocketPtr → Run (Message T)
  receive_and_log socket = do
    raw ← receive_raw socket
    received ← lift (decode raw)
    pure (message received.payload)

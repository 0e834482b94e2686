-- ===== src/Net/Messages/Keeping.antt =====
-- Sending and receiving leave the thread's `MediatorConnection` as it is.
use p2psc.Prelude.{◌≡◌, none, some}
use p2psc.Message.Codec.{JsonLibrary}
use p2psc.Message.Format.{Payload, Message, message}
use p2psc.Net.Objects.{SocketPtr}
use p2psc.Net.System.{Os}
use p2psc.Net.Run.{World}
use p2psc.Net.Run.Keeping.{Keeps, keep_rules, kept}
use p2psc.Net.Socket.Keeping.{send-Keeps, receive-Keeps, destroy-Keeps}
use p2psc.Net.Messages.{send_raw, receive_raw, send_and_log, release}
use p2psc.Net.Messages.Delivery.{Sends, Arrives}

module _ ⦃o : Os⦄ where
  pub receive_raw-Keeps : (socket : SocketPtr) → Keeps (receive_raw socket)
  unfolding receive_raw
  receive_raw-Keeps socket = search (keep_rules, receive-Keeps)

  pub release-Keeps : (socket : SocketPtr) → Keeps (release socket)
  unfolding release
  release-Keeps none = search keep_rules
  release-Keeps (some p) = destroy-Keeps p

module _ {T : Type 0} ⦃m : Payload T⦄ ⦃j : JsonLibrary⦄ ⦃o : Os⦄ (socket : SocketPtr) where
  send_and_log-Keeps : (x : Message T) → Keeps (send_and_log socket x)
  unfolding send_and_log send_raw
  send_and_log-Keeps x = search (keep_rules, send-Keeps)

  pub sent-kept :
      (payload : T) (w w' : World) → Sends socket payload w w' → w'.connection ≡ w.connection
  sent-kept payload w w' = kept _ w w' tt (send_and_log-Keeps (message payload))

  pub arrived-kept :
      (payload : T) (w w' : World) → Arrives socket payload w w' → w'.connection ≡ w.connection
  arrived-kept payload w w' arrives = kept _ w w' _ (receive_raw-Keeps socket) arrives.0

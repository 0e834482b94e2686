-- ===== src/Connection/Faults.antt =====
-- Faults of the system that end a thread without a report.
use p2psc.Prelude.{◌≡◌, true, none, some, arith}
use p2psc.Crypto.OpenSsl.{OpenSsl, Base64}
use p2psc.Crypto.Key.{Keypair}
use p2psc.Message.Codec.{JsonLibrary}
use p2psc.Net.Objects.{Peer}
use p2psc.Net.System.{Os}
use p2psc.Net.Run.{World, crashed, on_exception, catch, ◌>>=◌}
use p2psc.Net.Socket.{SocketCreator}
use p2psc.Net.Listening
use p2psc.Net.Listening.{LocalListeningSocket, session}
use p2psc.Net.Messages.{receive_raw, receive_and_log}
use p2psc.Connection.{peer_handshake, accept_client}

module _ ⦃j : JsonLibrary⦄ ⦃s : OpenSsl⦄ ⦃b : Base64⦄ ⦃o : Os⦄ (our_keypair : Keypair)
    (peer : Peer) where
  -- Where the system does not accept a client on an open listening socket, the thread follows a
  -- null pointer.
  pub accept_client-crashed :
      (creator : SocketCreator) (listening : LocalListeningSocket) (w : World)
      → listening.is_open ≡ true
      → o.accept w.trace (some listening.sockfd) ≡ none
      → accept_client our_keypair peer creator listening w ≡ (crashed, w)
  unfolding accept_client Listening.accept session peer_handshake receive_and_log receive_raw
      on_exception catch ◌>>=◌
  accept_client-crashed creator listening w is_open refused = ground (arith, is_open, refused)

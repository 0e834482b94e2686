-- ===== src/Integration/ClientTest/Handshake.antt =====
-- The test case of a whole handshake, on the sockets of two clients.
use p2psc.Prelude.{◌≡◌, arith, true, [], ◌∷◌, Bytes}
use p2psc.Errors.{ok}
use p2psc.Crypto.OpenSsl.{IsAscii}
use p2psc.Message.Codec.{JsonLibrary, JsonLaws}
use p2psc.Message.Format.{message}
use p2psc.Message.RoundTrip.{decode_message_type-encode}
use p2psc.Message.Payloads.Handshake.{peer_challenge_payload}
use p2psc.Connection.Completion.{peer_challenge}
use p2psc.Connection.Exchange.{text_of}
use p2psc.Integration.StatefulSocket
use p2psc.Integration.StatefulSocket.{StatefulSocket}
use p2psc.Integration.ClientTest.{should_complete_peer_handshake, two_each}

module _ ⦃j : JsonLibrary⦄ (json : JsonLaws j) where
  -- Two sockets that have noted two messages each way, of which the client's first is its challenge,
  -- pass the assertions.
  pub handshake_noted :
      (client_socket peer_socket : StatefulSocket) (cipher x y z u v t q : Bytes)
      → IsAscii cipher
      → client_socket.sent_messages ≡ text_of (peer_challenge cipher) ∷ x ∷ []
      → peer_socket.sent_messages ≡ y ∷ z ∷ []
      → client_socket.received_messages ≡ u ∷ v ∷ []
      → peer_socket.received_messages ≡ t ∷ q ∷ []
      → should_complete_peer_handshake client_socket peer_socket ≡ ok true
  unfolding should_complete_peer_handshake two_each StatefulSocket.get_sent_messages
      StatefulSocket.get_received_messages message
  handshake_noted client_socket peer_socket cipher x y z u v t q ascii e₁ e₂ e₃ e₄ = ground (
    arith,
    e₁,
    e₂,
    e₃,
    e₄,
    decode_message_type-encode json (message (peer_challenge cipher)).format
        (omega arith, (ascii, tt)),
  )

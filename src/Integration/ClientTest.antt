-- ===== src/Integration/ClientTest.antt =====
-- integration/src/client_it.cpp: what its test cases assert of the messages that the tests' Mediator
-- and the sockets of the tests' clients have noted.
pub mod Passing
pub mod Handshake
use p2psc.Prelude.{ℕ, Bool, true, false, ◌&&◌, List, [], ◌∷◌, Bytes, bytes_eq, ◌==◌}
use p2psc.Errors.{Result, ok, ◌>>=◌}
use p2psc.Crypto.OpenSsl.{OpenSsl, Base64}
use p2psc.Crypto.Key.{Keypair, PublicKey, get_serialised_public_key, serialise, private_decrypt}
use p2psc.Message.Types.{type_peer_disconnect, type_peer_identification, type_peer_challenge}
use p2psc.Message.Codec.{JsonLibrary}
use p2psc.Message.Format.{decode, decode_message_type}
use p2psc.Message.Payloads.Mediation.{
  Advertise, AdvertiseChallenge, AdvertiseResponse, PeerIdentification, advertise_payload,
  advertise_challenge_payload, advertise_response_payload, peer_identification_payload,
}
use p2psc.Net.Objects.{SocketAddress}
use p2psc.Integration.Handle.{FakeMediator}
use p2psc.Integration.StatefulSocket
use p2psc.Integration.StatefulSocket.{StatefulSocket}
use p2psc.Integration.FakeMediator.System.{get_received_messages, get_sent_messages}

-- `ok false` is an assertion that fails, and an exception of the test case is a `throw`.
module _ ⦃j : JsonLibrary⦄ ⦃s : OpenSsl⦄ where
  -- Received and sent messages.
  valid_advertise : List Bytes → List Bytes → Keypair → PublicKey → Result Bool
  valid_advertise (raw ∷ []) [] keypair peer_pub_key = do
    advertise ← decode {T = Advertise} raw
    ok (
        bytes_eq advertise.payload.our_key (get_serialised_public_key keypair)
        && bytes_eq advertise.payload.their_key (serialise peer_pub_key))
  valid_advertise _ _ keypair peer_pub_key = ok false

  unfoldable pub should_send_valid_advertise : FakeMediator → Keypair → PublicKey → Result Bool
  unfolding valid_advertise get_received_messages get_sent_messages
  should_send_valid_advertise mediator keypair peer_pub_key =
      valid_advertise (get_received_messages mediator) (get_sent_messages mediator) keypair
        peer_pub_key

  -- The messages that the Mediator has sent where the client waits for its peer.
  peer_identified : List Bytes → SocketAddress → Result Bool
  peer_identified (_ ∷ _ ∷ third ∷ fourth ∷ []) client_socket = do
    third_type ← decode_message_type third
    fourth_type ← decode_message_type fourth
    peer_identification ← decode {T = PeerIdentification} fourth
    ok (
        third_type == type_peer_disconnect
        && (fourth_type == type_peer_identification
            && (peer_identification.payload.port == client_socket.port
                && bytes_eq peer_identification.payload.ip client_socket.ip)))
  peer_identified _ client_socket = ok false

  -- The assertions after those that neither socket is null; `client_socket` is the address of the
  -- client's.
  unfoldable pub should_send_peer_identification_to_first_peer :
      FakeMediator → SocketAddress → Result Bool
  unfolding peer_identified get_sent_messages
  should_send_peer_identification_to_first_peer mediator client_socket =
      peer_identified (get_sent_messages mediator) client_socket

module _ ⦃j : JsonLibrary⦄ where
  two_each : List Bytes → List Bytes → List Bytes → List Bytes → Result Bool
  two_each (first ∷ _ ∷ []) (_ ∷ _ ∷ []) (_ ∷ _ ∷ []) (_ ∷ _ ∷ []) = do
    message_type ← decode_message_type first
    ok (message_type == type_peer_challenge)
  two_each _ _ _ _ = ok false

  -- The assertions on the messages of the handshake; the exchange after them is left out.
  unfoldable pub should_complete_peer_handshake : StatefulSocket → StatefulSocket → Result Bool
  unfolding two_each StatefulSocket.get_sent_messages StatefulSocket.get_received_messages
  should_complete_peer_handshake client_socket peer_socket =
      two_each (StatefulSocket.get_sent_messages client_socket)
        (StatefulSocket.get_sent_messages peer_socket)
        (StatefulSocket.get_received_messages client_socket)
        (StatefulSocket.get_received_messages peer_socket)

module _ ⦃j : JsonLibrary⦄ ⦃s : OpenSsl⦄ ⦃b : Base64⦄ where
  proven_identity : List Bytes → List Bytes → Keypair → Result Bool
  proven_identity (_ ∷ response ∷ []) (challenge ∷ []) keypair = do
    advertise_challenge ← decode {T = AdvertiseChallenge} challenge
    advertise_response ← decode {T = AdvertiseResponse} response
    decrypted_nonce ← private_decrypt keypair advertise_challenge.payload.encrypted_nonce
    ok (bytes_eq decrypted_nonce advertise_response.payload.nonce)
  proven_identity _ _ keypair = ok false

  unfoldable pub should_correctly_prove_identity_with_nonce : FakeMediator → Keypair → Result Bool
  unfolding proven_identity get_received_messages get_sent_messages
  should_correctly_prove_identity_with_nonce mediator keypair =
      proven_identity (get_received_messages mediator) (get_sent_messages mediator) keypair

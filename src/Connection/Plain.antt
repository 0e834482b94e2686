-- ===== src/Connection/Plain.antt =====
-- The parts of an attempt that throw no `ConnectionException`.
use p2psc.Prelude.{Bytes}
use p2psc.Errors.{Exception, socket_exception, connection_exception}
use p2psc.Crypto.OpenSsl.{OpenSsl, Base64}
use p2psc.Crypto.Key.{Keypair}
use p2psc.Crypto.Exceptions.{encrypt-Throws, private_decrypt-Throws}
use p2psc.Message.Codec.{JsonLibrary}
use p2psc.Net.Objects.{SocketPtr, Peer, SocketAddressOrFileDescriptor}
use p2psc.Net.System.{Os}
use p2psc.Net.Run.Throws.{IsPlain, Throws, Throws-raise, throws_rules}
use p2psc.Net.Socket.{SocketCreator}
use p2psc.Net.Listening.Exceptions.{listen_on-Throws, destroy-Throws, accept-Throws}
use p2psc.Net.Messages.Exceptions.{message_throws}
use p2psc.Mediation.Exceptions.{
  crypto_to_runtime-Throws, get_punched_peer-Throws, get_peer_disconnect-Throws,
  close_socket-Throws,
}
use p2psc.Connection.{
  generate_nonce, retry_connect, reach_peer, answer_peer, challenge_peer, client_handshake,
  acknowledge_client, challenge_client, answer_client, peer_handshake, accept_client,
  connect_as_peer,
}
use p2psc.Message.Format.{Message}
use p2psc.Message.Payloads.Handshake.{
  PeerChallenge, PeerChallengeResponse, PeerResponse, peer_challenge_payload,
  peer_challenge_response_payload, peer_response_payload, peer_acknowledgement_payload,
}

module _ ⦃o : Os⦄ where
  generate_nonce-Throws : Throws IsPlain generate_nonce
  unfolding generate_nonce
  generate_nonce-Throws = search throws_rules

  module _ (creator : SocketCreator)
      (created : (a : SocketAddressOrFileDescriptor) → Throws IsPlain (creator a)) where
    retry_connect-Throws : (e : Exception) → IsPlain e → Throws IsPlain (retry_connect creator e)
    unfolding retry_connect
    retry_connect-Throws (socket_exception what) h =
        search (throws_rules, created, get_punched_peer-Throws) depth 14
    retry_connect-Throws (connection_exception k what) h = absurd h
    retry_connect-Throws _ h = Throws-raise _ tt

    pub reach_peer-Throws : Throws IsPlain (reach_peer creator)
    unfolding reach_peer
    reach_peer-Throws =
        search (throws_rules, created, get_punched_peer-Throws, retry_connect-Throws) depth 14

module _ ⦃j : JsonLibrary⦄ ⦃s : OpenSsl⦄ ⦃b : Base64⦄ ⦃o : Os⦄ (our_keypair : Keypair) where
  answer_peer-Throws :
      (nonce : Bytes) (socket : SocketPtr) (response : Message PeerChallengeResponse)
      → Throws IsPlain (answer_peer our_keypair nonce socket response)
  unfolding answer_peer
  answer_peer-Throws nonce socket response =
      search (message_throws, private_decrypt-Throws, crypto_to_runtime-Throws) depth 20

  challenge_peer-Throws :
      (nonce : Bytes) (socket : SocketPtr) (encrypted : Bytes)
      → Throws IsPlain (challenge_peer our_keypair nonce socket encrypted)
  unfolding challenge_peer
  challenge_peer-Throws nonce socket encrypted =
      search (message_throws, answer_peer-Throws) depth 14

  pub client_handshake-Throws :
      (socket : SocketPtr) → Throws IsPlain (client_handshake our_keypair socket)
  unfolding client_handshake
  client_handshake-Throws socket =
      search
        (
          throws_rules, generate_nonce-Throws, get_punched_peer-Throws, encrypt-Throws,
          challenge_peer-Throws,
        )
        depth 14

  acknowledge_client-Throws :
      (nonce : Bytes) (socket : SocketPtr) (response : Message PeerResponse)
      → Throws IsPlain (acknowledge_client our_keypair nonce socket response)
  unfolding acknowledge_client
  acknowledge_client-Throws nonce socket response = search message_throws depth 14

  challenge_client-Throws :
      (nonce : Bytes) (socket : SocketPtr) (response : PeerChallengeResponse)
      → Throws IsPlain (challenge_client our_keypair nonce socket response)
  unfolding challenge_client
  challenge_client-Throws nonce socket response =
      search (message_throws, acknowledge_client-Throws) depth 14

  module _ (peer : Peer) where
    answer_client-Throws :
        (socket : SocketPtr) (challenge : Message PeerChallenge)
        → Throws IsPlain (answer_client our_keypair peer socket challenge)
    unfolding answer_client
    answer_client-Throws socket challenge =
        search
          (
            throws_rules, private_decrypt-Throws, generate_nonce-Throws, encrypt-Throws,
            challenge_client-Throws,
          )
          depth 14

    peer_handshake-Throws :
        (socket : SocketPtr) → Throws IsPlain (peer_handshake our_keypair peer socket)
    unfolding peer_handshake
    peer_handshake-Throws socket = search (message_throws, answer_client-Throws) depth 14

    module _ (creator : SocketCreator)
        (created : (a : SocketAddressOrFileDescriptor) → Throws IsPlain (creator a)) where
      pub connect_as_peer-Throws : Throws IsPlain (connect_as_peer our_keypair peer creator)
      unfolding connect_as_peer accept_client
      connect_as_peer-Throws =
          search
            (
              message_throws,
              get_peer_disconnect-Throws,
              close_socket-Throws,
              listen_on-Throws,
              destroy-Throws,
              accept-Throws creator created,
              peer_handshake-Throws,
            )
            depth 20

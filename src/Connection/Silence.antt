-- ===== src/Connection/Silence.antt =====
-- Calls of the user's function before the report.
use p2psc.Prelude.{Bytes}
use p2psc.Errors.{Exception, socket_exception}
use p2psc.Crypto.OpenSsl.{OpenSsl, Base64}
use p2psc.Crypto.Key.{Keypair}
use p2psc.Message.Codec.{JsonLibrary}
use p2psc.Message.Format.{Message}
use p2psc.Message.Payloads.Handshake.{PeerChallenge, PeerChallengeResponse, PeerResponse}
use p2psc.Net.Objects.{SocketPtr, Peer, PunchedPeer, Mediator, SocketAddressOrFileDescriptor}
use p2psc.Net.System.{Os, Trace}
use p2psc.Net.Run.Stable.{Stable, Stable-bind}
use p2psc.Net.Silence.{Ignores}
use p2psc.Net.Socket.{SocketCreator}
use p2psc.Net.Listening.Silence as Listening
use p2psc.Mediation.Silence as Mediation
use p2psc.Mediation.Silence.{object_effects}
use p2psc.Connection.{
  require_version, generate_nonce, retry_connect, reach_peer, answer_peer, challenge_peer,
  client_handshake, acknowledge_client, challenge_client, answer_client, connect_as_client,
  peer_handshake, accept_client, connect_as_peer, mediator_failure, reach, connect,
}

module _ {P : Trace → Type 0} ⦃i : Ignores P⦄ where
  require_version-Stable : (p : PunchedPeer) → Stable P (require_version p)
  unfolding require_version
  require_version-Stable p = search object_effects depth 14

module _ {P : Trace → Type 0} ⦃i : Ignores P⦄ ⦃o : Os⦄ where
  generate_nonce-Stable : Stable P generate_nonce
  unfolding generate_nonce
  generate_nonce-Stable = search object_effects depth 14

  module _ (creator : SocketCreator)
      (created : (a : SocketAddressOrFileDescriptor) → Stable P (creator a)) where
    retry_connect-Stable : (e : Exception) → Stable P (retry_connect creator e)
    unfolding retry_connect
    retry_connect-Stable (socket_exception what) = search (object_effects, created) depth 14
    retry_connect-Stable _ = search object_effects depth 14

    reach_peer-Stable : Stable P (reach_peer creator)
    unfolding reach_peer
    reach_peer-Stable = search (object_effects, created, retry_connect-Stable) depth 14

module _ {P : Trace → Type 0} ⦃i : Ignores P⦄ ⦃j : JsonLibrary⦄ ⦃s : OpenSsl⦄ ⦃b : Base64⦄ ⦃o : Os⦄
    (our_keypair : Keypair) where
  answer_peer-Stable :
      (nonce : Bytes) (socket : SocketPtr) (response : Message PeerChallengeResponse)
      → Stable P (answer_peer our_keypair nonce socket response)
  unfolding answer_peer
  answer_peer-Stable nonce socket response = search object_effects depth 24

  challenge_peer-Stable :
      (nonce : Bytes) (socket : SocketPtr) (encrypted_nonce : Bytes)
      → Stable P (challenge_peer our_keypair nonce socket encrypted_nonce)
  unfolding challenge_peer
  challenge_peer-Stable nonce socket encrypted_nonce =
      search (object_effects, answer_peer-Stable) depth 24

  client_handshake-Stable : (socket : SocketPtr) → Stable P (client_handshake our_keypair socket)
  unfolding client_handshake
  client_handshake-Stable socket =
      search (object_effects, generate_nonce-Stable, challenge_peer-Stable) depth 24

  acknowledge_client-Stable :
      (nonce : Bytes) (socket : SocketPtr) (answer : Message PeerResponse)
      → Stable P (acknowledge_client our_keypair nonce socket answer)
  unfolding acknowledge_client
  acknowledge_client-Stable nonce socket answer = search object_effects depth 24

  challenge_client-Stable :
      (nonce : Bytes) (socket : SocketPtr) (response : PeerChallengeResponse)
      → Stable P (challenge_client our_keypair nonce socket response)
  unfolding challenge_client
  challenge_client-Stable nonce socket response =
      search (object_effects, acknowledge_client-Stable) depth 24

  answer_client-Stable :
      (peer : Peer) (socket : SocketPtr) (challenge : Message PeerChallenge)
      → Stable P (answer_client our_keypair peer socket challenge)
  unfolding answer_client
  answer_client-Stable peer socket challenge =
      search (object_effects, generate_nonce-Stable, challenge_client-Stable) depth 24

  peer_handshake-Stable :
      (peer : Peer) (socket : SocketPtr) → Stable P (peer_handshake our_keypair peer socket)
  unfolding peer_handshake
  peer_handshake-Stable peer socket = search (object_effects, answer_client-Stable) depth 24

  mediator_failure-Stable : (e : Exception) → Stable P (mediator_failure our_keypair e)
  unfolding mediator_failure
  mediator_failure-Stable (socket_exception what) = search object_effects
  mediator_failure-Stable _ = search object_effects

  module _ (creator : SocketCreator)
      (created : (a : SocketAddressOrFileDescriptor) → Stable P (creator a)) where
    connect_as_client-Stable : Stable P (connect_as_client our_keypair creator)
    unfolding connect_as_client
    connect_as_client-Stable = Stable-bind _ _ (search object_effects) λ _.
        Stable-bind _ _ (search object_effects) λ punched_peer.
          Stable-bind _ _ (search require_version-Stable) λ _.
            Stable-bind _ _ (reach_peer-Stable creator created)
              λ socket. search (object_effects, client_handshake-Stable) depth 14

    connect_as_peer-Stable : (peer : Peer) → Stable P (connect_as_peer our_keypair peer creator)
    unfolding connect_as_peer accept_client
    connect_as_peer-Stable peer =
        search
          (
            object_effects, Listening.listen_on-Stable, Listening.accept-Stable,
            Listening.destroy-Stable, created, peer_handshake-Stable,
          )
          depth 24

    reach-Stable : (peer : Peer) → Stable P (reach our_keypair peer creator)
    unfolding reach
    reach-Stable peer =
        search (object_effects, connect_as_client-Stable, connect_as_peer-Stable) depth 14

    pub connect-Stable :
        (peer : Peer) (mediator : Mediator) → Stable P (connect our_keypair peer mediator creator)
    unfolding connect
    connect-Stable peer mediator =
        search
          (
            object_effects, Mediation.connect-Stable, Mediation.destroy-Stable,
            mediator_failure-Stable, reach-Stable, created,
          )
          depth 14

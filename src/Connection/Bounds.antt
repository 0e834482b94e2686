-- ===== src/Connection/Bounds.antt =====
-- How many messages a whole attempt sends, and the fuel of its loop.
use p2psc.Prelude.{◌+◌, Bytes, Option, none, some, arith}
use p2psc.Errors.{Exception, socket_exception}
use p2psc.Crypto.OpenSsl.{OpenSsl, Base64}
use p2psc.Crypto.Key.{Keypair}
use p2psc.Message.Codec.{JsonLibrary}
use p2psc.Message.Format.{Message}
use p2psc.Message.Payloads.Handshake.{PeerChallenge, PeerChallengeResponse, PeerResponse}
use p2psc.Net.Objects.{SocketPtr, Peer, PunchedPeer, Mediator}
use p2psc.Net.System.{Os}
use p2psc.Net.Run.Bounded.{
  Bounded, Bounded-mono, Bounded-raise, Bounded-if, Bounded-bind, Bounded-first, Bounded-catch,
  Bounded-on_exception, Bounded-scoped,
}
use p2psc.Net.Socket.{create_socket}
use p2psc.Net.Socket.Bounds.{create_socket-Bounded, close-Bounded}
use p2psc.Net.Listening.Bounds as Listening
use p2psc.Net.Messages.Bounds.{send_and_log-Bounded, object_rules}
use p2psc.Mediation
use p2psc.Mediation.{
  get_punched_peer, get_peer_disconnect, close_socket, asserted, crypto_to_runtime,
  max_advertise_retries,
}
use p2psc.Mediation.Retries.{connect-Bounded, crypto_to_runtime-Bounded}
use p2psc.Connection.{
  require_version, generate_nonce, retry_connect, reach_peer, answer_peer, challenge_peer,
  client_handshake, acknowledge_client, challenge_client, answer_client, connect_as_client,
  peer_handshake, accept_client, connect_as_peer, mediator_failure, reach, connect,
}

asserted-Bounded : {A : Type 0} (x : Option A) → Bounded 0 (asserted x)
unfolding asserted
asserted-Bounded none = search object_rules
asserted-Bounded (some a) = search object_rules

get_punched_peer-Bounded : Bounded 0 get_punched_peer
unfolding get_punched_peer
get_punched_peer-Bounded = search (object_rules, asserted-Bounded)

get_peer_disconnect-Bounded : Bounded 0 get_peer_disconnect
unfolding get_peer_disconnect
get_peer_disconnect-Bounded = search (object_rules, asserted-Bounded)

require_version-Bounded : (p : PunchedPeer) → Bounded 0 (require_version p)
unfolding require_version
require_version-Bounded p = search object_rules depth 14

module _ ⦃o : Os⦄ where
  close_socket-Bounded : Bounded 0 close_socket
  unfolding close_socket Mediation.get_socket
  close_socket-Bounded = search (object_rules, close-Bounded) depth 14

  destroy-Bounded : Bounded 0 Mediation.destroy
  unfolding Mediation.destroy Mediation.get_socket
  destroy-Bounded = search object_rules depth 14

  generate_nonce-Bounded : Bounded 0 generate_nonce
  unfolding generate_nonce
  generate_nonce-Bounded = search object_rules depth 14

  retry_connect-Bounded : (e : Exception) → Bounded 0 (retry_connect create_socket e)
  unfolding retry_connect
  retry_connect-Bounded (socket_exception what) =
      search (object_rules, create_socket-Bounded, get_punched_peer-Bounded) depth 14
  retry_connect-Bounded _ = search object_rules depth 14

  reach_peer-Bounded : Bounded 0 (reach_peer create_socket)
  unfolding reach_peer
  reach_peer-Bounded =
      search (object_rules, create_socket-Bounded, get_punched_peer-Bounded, retry_connect-Bounded)
        depth 14

ruleset rules = (
  object_rules, crypto_to_runtime-Bounded, get_punched_peer-Bounded, get_peer_disconnect-Bounded,
  require_version-Bounded, close_socket-Bounded, destroy-Bounded, generate_nonce-Bounded,
  reach_peer-Bounded,
)

module _ ⦃j : JsonLibrary⦄ ⦃s : OpenSsl⦄ ⦃b : Base64⦄ ⦃o : Os⦄ (our_keypair : Keypair) where
  answer_peer-Bounded :
      (nonce : Bytes) (socket : SocketPtr) (response : Message PeerChallengeResponse)
      → Bounded 1 (answer_peer our_keypair nonce socket response)
  unfolding answer_peer
  answer_peer-Bounded nonce socket response =
      Bounded-if _ _ _ (Bounded-mono _ (omega arith) (Bounded-raise _)) (
        Bounded-first _ _ (search rules) λ (plain : Bytes).
          Bounded-bind {n = 1} {k = 0} _ _ (omega arith) (send_and_log-Bounded ⦃m = _⦄ socket _)
            λ u. search rules)

  challenge_peer-Bounded :
      (nonce : Bytes) (socket : SocketPtr) (encrypted_nonce : Bytes)
      → Bounded 2 (challenge_peer our_keypair nonce socket encrypted_nonce)
  unfolding challenge_peer
  challenge_peer-Bounded nonce socket encrypted_nonce =
      Bounded-bind {n = 1} {k = 1} _ _ (omega arith) (send_and_log-Bounded ⦃m = _⦄ socket _)
        λ u. Bounded-first _ _ (search rules) λ response. answer_peer-Bounded nonce socket response

  client_handshake-Bounded : (socket : SocketPtr) → Bounded 2 (client_handshake our_keypair socket)
  unfolding client_handshake
  client_handshake-Bounded socket = Bounded-first _ _ (search rules) λ nonce.
      Bounded-first _ _ (search rules) λ punched_peer.
        Bounded-first _ _ (search rules)
          λ pad. Bounded-first _ _ (search rules) λ c. challenge_peer-Bounded nonce socket c

  connect_as_client-Bounded : Bounded 2 (connect_as_client our_keypair create_socket)
  unfolding connect_as_client
  connect_as_client-Bounded = Bounded-first _ _ (search rules) λ u.
      Bounded-first _ _ (search rules) λ punched_peer. Bounded-first _ _ (search rules) λ u.
        Bounded-first _ _ (search rules) λ socket.
          Bounded-bind {n = 2} {k = 0} _ _ (omega arith)
            (Bounded-on_exception _ _ (client_handshake-Bounded socket) (search rules))
            λ u. search rules

  acknowledge_client-Bounded :
      (nonce : Bytes) (socket : SocketPtr) (answer : Message PeerResponse)
      → Bounded 1 (acknowledge_client our_keypair nonce socket answer)
  unfolding acknowledge_client
  acknowledge_client-Bounded nonce socket answer =
      Bounded-if _ _ _ (Bounded-mono _ (omega arith) (Bounded-raise _))
        (send_and_log-Bounded ⦃m = _⦄ socket _)

  challenge_client-Bounded :
      (nonce : Bytes) (socket : SocketPtr) (response : PeerChallengeResponse)
      → Bounded 2 (challenge_client our_keypair nonce socket response)
  unfolding challenge_client
  challenge_client-Bounded nonce socket response =
      Bounded-bind {n = 1} {k = 1} _ _ (omega arith) (send_and_log-Bounded ⦃m = _⦄ socket _) λ u.
        Bounded-first _ _ (search rules) λ answer. acknowledge_client-Bounded nonce socket answer

  answer_client-Bounded :
      (peer : Peer) (socket : SocketPtr) (challenge : Message PeerChallenge)
      → Bounded 2 (answer_client our_keypair peer socket challenge)
  unfolding answer_client
  answer_client-Bounded peer socket challenge = Bounded-first _ _ (search rules) λ plain.
      Bounded-first _ _ (search rules) λ nonce.
        Bounded-first _ _ (search rules)
          λ pad. Bounded-first _ _ (search rules) λ c. challenge_client-Bounded nonce socket _

  peer_handshake-Bounded :
      (peer : Peer) (socket : SocketPtr) → Bounded 2 (peer_handshake our_keypair peer socket)
  unfolding peer_handshake
  peer_handshake-Bounded peer socket =
      Bounded-first _ _ (search rules) λ challenge. answer_client-Bounded peer socket challenge

  connect_as_peer-Bounded :
      (peer : Peer) → Bounded 2 (connect_as_peer our_keypair peer create_socket)
  unfolding connect_as_peer accept_client
  connect_as_peer-Bounded peer = Bounded-first _ _ (search rules) λ disconnect.
      Bounded-first _ _ (search rules) λ u. Bounded-first _ _ (Listening.listen_on-Bounded _) λ l.
        Bounded-scoped _ _
          (Bounded-first _ _ (Listening.accept-Bounded _ l create_socket-Bounded) λ socket.
            Bounded-bind {n = 2} {k = 0} _ _ (omega arith)
              (Bounded-on_exception _ _ (peer_handshake-Bounded peer socket) (search rules))
              λ u. search rules)
          (Listening.destroy-Bounded l)

  mediator_failure-Bounded : (e : Exception) → Bounded 0 (mediator_failure our_keypair e)
  unfolding mediator_failure
  mediator_failure-Bounded (socket_exception what) = search rules
  mediator_failure-Bounded _ = search rules

  reach-Bounded : (peer : Peer) → Bounded 2 (reach our_keypair peer create_socket)
  unfolding reach
  reach-Bounded peer = Bounded-first _ _ (search rules) λ connection.
      Bounded-if _ _ _ connect_as_client-Bounded (
        Bounded-if _ _ _ (connect_as_peer-Bounded peer)
          (Bounded-mono _ (omega arith) (Bounded-raise _)))

  -- Whatever the Mediator, the peer and the network do, an attempt hands at most nine messages to
  -- the system, and the loop that sends `Advertise` does not run out of the model's fuel.
  pub attempt-Bounded :
      (peer : Peer) (mediator : Mediator)
      → Bounded (max_advertise_retries + 4) (connect our_keypair peer mediator create_socket)
  unfolding connect
  attempt-Bounded peer mediator = Bounded-first _ _ (search rules) λ u.
      Bounded-scoped _ _
        (Bounded-bind {n = 7} {k = 2} _ _ (omega arith)
          (Bounded-catch _ _ (connect-Bounded our_keypair peer create_socket create_socket-Bounded)
            mediator_failure-Bounded)
          λ u. reach-Bounded peer)
        (search rules)

-- ===== src/Connection.antt =====
-- src/connection.cpp: the connection attempt of one thread, with its two ways to reach the peer.
pub mod Silence
pub mod Callback
pub mod Authentication
pub mod Bounds
pub mod Faults
pub mod Completion
pub mod Agreement
pub mod Exchange
pub mod Attempt
pub mod Safety
pub mod Plain
pub mod Kinds
use p2psc.Prelude.{ℕ, not, none, Bytes, codes, to_string, ◌++◌, bytes_eq, ◌==◌, if◌then◌else◌}
use p2psc.Errors.{
  c_string, unknown, peer_unsupported_protocol_version, mediator_connect_failure, Error, unset,
  error, Exception, runtime_error, socket_exception, message_exception, crypto_exception,
  connection_exception, runtime_error_pointer,
}
use p2psc.Crypto.OpenSsl.{OpenSsl, Base64}
use p2psc.Crypto.Key.{Keypair, encrypt, private_decrypt}
use p2psc.Message.Codec.{JsonLibrary}
use p2psc.Message.Format.{Message, message}
use p2psc.Message.Payloads.Handshake.{
  PeerChallenge, PeerChallengeResponse, PeerResponse, PeerAcknowledgement, peer_challenge_payload,
  peer_challenge_response_payload, peer_response_payload, peer_acknowledgement_payload,
}
use p2psc.Net.Objects.{SocketPtr, Peer, PunchedPeer, Mediator, from_address}
use p2psc.Net.System.{Os, slept, called_back}
use p2psc.Net.Run.{
  Run, pure, raise, lift, ask, gets, act, modify_connection, not_null, catch, on_exception, scoped,
  ◌>>=◌, ◌>>◌,
}
use p2psc.Net.Socket.{SocketCreator, create_socket}
use p2psc.Net.Socket
use p2psc.Net.Listening
use p2psc.Net.Listening.{LocalListeningSocket}
use p2psc.Net.Messages.{release, send_and_log, receive_and_log}
use p2psc.Mediation
use p2psc.Mediation.{
  version, crypto_to_runtime, get_punched_peer, get_peer_disconnect, close_socket, has_punched_peer,
  has_peer_disconnect,
}

abbrev pub backoff_duration_ms : ℕ
backoff_duration_ms = 10

-- The user's function.
abbrev pub Callback : Type 0
Callback = Error → SocketPtr → Run (Unit {0})

unfoldable pub incompatible : ℕ → Exception
incompatible peer_version = connection_exception peer_unsupported_protocol_version (
    codes "Peer has incompatible protocol version "
    ++ (to_string peer_version ++ (codes ". Require " ++ to_string version)))

-- The test of the protocol version.
unfoldable pub require_version : PunchedPeer → Run (Unit {0})
unfolding incompatible
require_version punched_peer =
    if not (punched_peer.version == version)
    then raise (incompatible punched_peer.version)
    else pure tt

module _ ⦃o : Os⦄ where
  -- `std::srand(std::time(0))` and the first `std::rand()` after it.
  unfoldable pub generate_nonce : Run Bytes
  generate_nonce = do seconds ← ask o.time; pure (to_string (o.rand seconds))

  -- The handler of the first attempt to reach the peer.
  unfoldable pub retry_connect : SocketCreator → Exception → Run SocketPtr
  retry_connect socket_creator (socket_exception what) = do
    act (slept backoff_duration_ms)
    punched_peer ← get_punched_peer
    socket_creator (from_address punched_peer.address)
  retry_connect socket_creator e = raise e

  unfoldable pub reach_peer : SocketCreator → Run SocketPtr
  reach_peer socket_creator =
      catch (do punched_peer ← get_punched_peer; socket_creator (from_address punched_peer.address))
        (retry_connect socket_creator)

module _ ⦃j : JsonLibrary⦄ ⦃s : OpenSsl⦄ ⦃b : Base64⦄ ⦃o : Os⦄ (our_keypair : Keypair) where
  -- `_connect_as_client` from the peer's answer on.
  unfoldable pub answer_peer : Bytes → SocketPtr → Message PeerChallengeResponse → Run (Unit {0})
  answer_peer nonce socket response =
      if not (bytes_eq response.format.payload.decrypted_nonce nonce)
      then raise (runtime_error (codes "PeerChallengeResponse: peer did not pass verification"))
      else (do
        decrypted_peer_nonce ←
            catch (lift (private_decrypt our_keypair response.format.payload.encrypted_nonce))
              (crypto_to_runtime (codes "PeerChallengeResponse: Could not decrypt encrypted_nonce"))
        let peer_response : PeerResponse = record { decrypted_nonce = decrypted_peer_nonce }
        send_and_log socket (message peer_response)
        acknowledgement ← receive_and_log {T = PeerAcknowledgement} socket
        pure tt)

  -- `_connect_as_client` once its nonce is encrypted.
  unfoldable pub challenge_peer : Bytes → SocketPtr → Bytes → Run (Unit {0})
  challenge_peer nonce socket encrypted_nonce = do
    let challenge : PeerChallenge = record { encrypted_nonce = encrypted_nonce }
    send_and_log socket (message challenge)
    response ← receive_and_log {T = PeerChallengeResponse} socket
    answer_peer nonce socket response

  -- `_connect_as_client` once it has its socket.
  unfoldable pub client_handshake : SocketPtr → Run (Unit {0})
  client_handshake socket = do
    nonce ← generate_nonce
    punched_peer ← get_punched_peer
    pad ← ask o.padding
    encrypted_nonce ← lift (encrypt pad punched_peer.peer.public_key nonce)
    challenge_peer nonce socket encrypted_nonce

  unfoldable pub connect_as_client : SocketCreator → Run SocketPtr
  connect_as_client socket_creator = do
    close_socket
    punched_peer ← get_punched_peer
    require_version punched_peer
    socket ← reach_peer socket_creator
    on_exception (client_handshake socket) (release socket)
    pure socket

  -- `_connect_as_peer` from the client's answer on.
  unfoldable pub acknowledge_client : Bytes → SocketPtr → Message PeerResponse → Run (Unit {0})
  acknowledge_client client_nonce socket peer_response =
      if not (bytes_eq peer_response.format.payload.decrypted_nonce client_nonce)
      then raise (runtime_error (codes "PeerResponse: peer did not pass verification"))
      else (let acknowledgement : PeerAcknowledgement = record {} in
          send_and_log socket (message acknowledgement))

  -- `_connect_as_peer` once its own nonce is encrypted.
  unfoldable pub challenge_client : Bytes → SocketPtr → PeerChallengeResponse → Run (Unit {0})
  challenge_client client_nonce socket response = do
    send_and_log socket (message response)
    peer_response ← receive_and_log {T = PeerResponse} socket
    acknowledge_client client_nonce socket peer_response

  -- `_connect_as_peer` once the client's challenge has arrived.
  unfoldable pub answer_client : Peer → SocketPtr → Message PeerChallenge → Run (Unit {0})
  answer_client peer socket challenge = do
    decrypted_nonce ← lift (private_decrypt our_keypair challenge.format.payload.encrypted_nonce)
    client_nonce ← generate_nonce
    pad ← ask o.padding
    encrypted_client_nonce ← lift (encrypt pad peer.public_key client_nonce)
    challenge_client client_nonce socket
        (record { encrypted_nonce = encrypted_client_nonce; decrypted_nonce = decrypted_nonce })

  -- `_connect_as_peer` once the client has connected.
  unfoldable pub peer_handshake : Peer → SocketPtr → Run (Unit {0})
  peer_handshake peer socket = do
    challenge ← receive_and_log {T = PeerChallenge} socket
    answer_client peer socket challenge

  -- `_connect_as_peer` on its listening socket.
  unfoldable pub accept_client : Peer → SocketCreator → LocalListeningSocket → Run SocketPtr
  accept_client peer socket_creator listening = do
    socket ← Listening.accept socket_creator listening
    on_exception (peer_handshake peer socket) (release socket)
    pure socket

  -- The listening socket is closed where its scope ends, on every way out.
  unfoldable pub connect_as_peer : Peer → SocketCreator → Run SocketPtr
  connect_as_peer peer socket_creator = do
    disconnect ← get_peer_disconnect
    close_socket
    listening ← Listening.listen_on disconnect.port
    scoped (accept_client peer socket_creator listening) (Listening.destroy listening)

  -- `catch (const socket::SocketException &e)` around the handshake with the Mediator.
  unfoldable pub mediator_failure : Exception → Run (Unit {0})
  mediator_failure (socket_exception what) =
      raise (connection_exception mediator_connect_failure (c_string what))
  mediator_failure e = raise e

  -- The choice after the handshake with the Mediator.
  unfoldable pub reach : Peer → SocketCreator → Run SocketPtr
  reach peer socket_creator = do
    connection ← gets (λ w. w.connection)
    if has_punched_peer connection
        then connect_as_client socket_creator
        else if has_peer_disconnect connection
        then connect_as_peer peer socket_creator
        else raise (runtime_error (codes "No PunchedPeer or PeerDisconnect"))

  -- `Connection::_connect`. The `MediatorConnection` is destroyed where its scope ends.
  unfoldable pub connect : Peer → Mediator → SocketCreator → Run SocketPtr
  connect peer mediator socket_creator = do
    modify_connection (λ c. Mediation.new mediator)
    scoped
        (do
          catch (Mediation.connect our_keypair peer socket_creator) mediator_failure
          reach peer socket_creator)
        Mediation.destroy

-- The callback is called, and the call is noted.
unfoldable pub call : Callback → Error → SocketPtr → Run (Unit {0})
call callback e socket = do act (called_back e socket); callback e socket

-- The four `catch` clauses, in their order. `runtime_error` and the other exceptions of the library
-- are caught as `std::exception`; the pointer reaches `catch (...)`, which only writes to the log.
unfoldable pub on_failure : Callback → Exception → Run (Unit {0})
unfolding call
on_failure callback (connection_exception kind reason) = call callback (error kind reason) none
on_failure callback (runtime_error what) = call callback (error unknown (c_string what)) none
on_failure callback (socket_exception what) = call callback (error unknown (c_string what)) none
on_failure callback (message_exception what) = call callback (error unknown (c_string what)) none
on_failure callback (crypto_exception what) = call callback (error unknown (c_string what)) none
on_failure callback (runtime_error_pointer what) = pure tt

module _ ⦃j : JsonLibrary⦄ ⦃s : OpenSsl⦄ ⦃b : Base64⦄ ⦃o : Os⦄ where
  -- The log line reads the socket's address before the callback is called.
  unfoldable pub report : Callback → SocketPtr → Run (Unit {0})
  report callback socket = do
    p ← not_null socket
    address ← Socket.get_socket_address p
    call callback unset socket

  -- `Connection::_handle_connection`, which `Connection::connect` runs in a thread of its own.
  unfoldable pub handle_connection :
      Keypair → Peer → Mediator → Callback → SocketCreator → Run (Unit {0})
  handle_connection our_keypair peer mediator callback socket_creator =
      catch (connect our_keypair peer mediator socket_creator >>= report callback)
        (on_failure callback)

  -- `p2psc::connect`.
  unfoldable pub start : Keypair → Peer → Mediator → Callback → Run (Unit {0})
  start our_keypair peer mediator callback =
      handle_connection our_keypair peer mediator callback create_socket

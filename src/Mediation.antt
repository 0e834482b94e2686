-- ===== src/Mediation.antt =====
-- src/mediator_connection.cpp: the handshake with the Mediator.
pub mod Silence
pub mod Retries
pub mod Replies
pub mod Loop
pub mod Safety
pub mod Exceptions
pub mod Completion
pub mod Sent
pub mod Closing
use p2psc.Prelude.{
  ℕ, zero, suc, ◌+◌, ◌++◌, Bool, true, false, not, Option, none, some, Bytes, codes, to_string,
  ◌==◌, if◌then◌else◌,
}
use p2psc.Errors.{Exception, runtime_error, crypto_exception}
use p2psc.Crypto.OpenSsl.{OpenSsl, Base64}
use p2psc.Crypto.Key.{Keypair, get_serialised_public_key, private_decrypt, serialise}
use p2psc.Message.Types.{
  MessageType, type_advertise_abort, type_advertise_retry, type_advertise_challenge,
  type_peer_identification, type_peer_disconnect, message_type_string,
}
use p2psc.Message.Codec.{JsonLibrary}
use p2psc.Message.Format.{message, decode, decode_message_type}
use p2psc.Message.Payloads.Mediation.{
  Advertise, AdvertiseChallenge, AdvertiseResponse, AdvertiseAbort, AdvertiseRetry, PeerDisconnect,
  PeerIdentification, advertise_payload, advertise_challenge_payload, advertise_response_payload,
  advertise_abort_payload, advertise_retry_payload, peer_disconnect_payload,
  peer_identification_payload,
}
use p2psc.Net.Objects.{
  SocketAddress, SocketPtr, Peer, PunchedPeer, Mediator, MediatorConnection, from_address,
}
use p2psc.Net.System.{Os}
use p2psc.Net.Run.{
  Run, aborted, stuck, pure, raise, stop, lift, gets, modify_connection, not_null, assert, catch,
  ◌>>=◌, ◌>>◌,
}
use p2psc.Net.Socket.{SocketCreator}
use p2psc.Net.Socket
use p2psc.Net.Messages.{release, receive_raw, send_and_log}

-- include/p2psc/version.h
abbrev pub version : ℕ
version = 0

abbrev pub max_advertise_retries : ℕ
max_advertise_retries = 5

-- Fuel for the loop of `connect`: the first round and one for each retry.
abbrev pub advertise_fuel : ℕ
advertise_fuel = 6

-- The constructor.
unfoldable pub new : Mediator → MediatorConnection
new mediator = record {
  mediator = mediator;
  connected = false;
  punched_peer = none;
  peer_disconnect = none;
  socket = none;
}

-- `catch (crypto::CryptoException &e) { throw std::runtime_error(what); }`
unfoldable pub crypto_to_runtime : {A : Type 0} → Bytes → Exception → Run A
crypto_to_runtime what (crypto_exception _) = raise (runtime_error what)
crypto_to_runtime what e = raise e

unfoldable pub has_punched_peer : MediatorConnection → Bool
has_punched_peer c = elim c.punched_peer [ none ↦ false | some _ ↦ true ]

unfoldable pub has_peer_disconnect : MediatorConnection → Bool
has_peer_disconnect c = elim c.peer_disconnect [ none ↦ false | some _ ↦ true ]

-- `BOOST_ASSERT(o)` in front of `*o`.
unfoldable pub asserted : {A : Type 0} → Option A → Run A
asserted none = stop aborted
asserted (some a) = pure a

unfoldable pub get_punched_peer : Run PunchedPeer
unfolding asserted
get_punched_peer = do o ← gets (λ w. w.connection.punched_peer); asserted o

unfoldable pub get_peer_disconnect : Run PeerDisconnect
unfolding asserted
get_peer_disconnect = do o ← gets (λ w. w.connection.peer_disconnect); asserted o

unfoldable pub get_socket : Run SocketPtr
get_socket = gets (λ w. w.connection.socket)

module _ ⦃o : Os⦄ where
  unfoldable pub close_socket : Run (Unit {0})
  close_socket = do
    connected ← gets (λ w. w.connection.connected)
    assert connected
    socket ← get_socket
    p ← not_null socket
    Socket.close p

  -- The destructor lets go of the socket, which nothing else refers to.
  unfoldable pub destroy : Run (Unit {0})
  destroy = do socket ← get_socket; release socket

pub retried_too_often : ℕ → Bytes → Exception
retried_too_often retries reason = runtime_error (
    codes "AdvertiseRetry: Retried "
    ++ (to_string retries ++ (codes " times, aborting. Reason: " ++ reason)))

module _ ⦃j : JsonLibrary⦄ ⦃s : OpenSsl⦄ ⦃b : Base64⦄ ⦃o : Os⦄ (our_keypair : Keypair)
    (peer : Peer) where
  unfoldable pub advertise : Advertise
  advertise = record {
    version = version;
    our_key = get_serialised_public_key our_keypair;
    their_key = serialise peer.public_key;
  }

  on_abort : Bytes → Run AdvertiseChallenge
  on_abort raw = do
    abort ← lift (decode {T = AdvertiseAbort} raw)
    raise (runtime_error (codes "AdvertiseAbort: " ++ abort.payload.reason))

  on_challenge : Bytes → Run AdvertiseChallenge
  on_challenge raw = do
    challenge_message ← lift (decode {T = AdvertiseChallenge} raw)
    again ← lift (decode {T = AdvertiseChallenge} raw)
    pure again.payload

  -- `more` is the next round of the loop.
  on_retry : Bytes → ℕ → Run AdvertiseChallenge → Run AdvertiseChallenge
  unfolding retried_too_often
  on_retry raw advertise_retries more = do
    retry ← lift (decode {T = AdvertiseRetry} raw)
    if advertise_retries == max_advertise_retries
        then raise (retried_too_often advertise_retries retry.payload.reason)
        else more

  on_unexpected : MessageType → Run AdvertiseChallenge
  on_unexpected type =
      raise (runtime_error (codes "Unexpected message type: " ++ message_type_string type))

  -- The branches of the loop's body on the type of the Mediator's response.
  on_response : MessageType → Bytes → ℕ → Run AdvertiseChallenge → Run AdvertiseChallenge
  unfolding on_abort on_challenge on_retry on_unexpected
  on_response type raw advertise_retries more =
      if type == type_advertise_abort
      then on_abort raw
      else if type == type_advertise_retry
      then on_retry raw advertise_retries more
      else if type == type_advertise_challenge
      then on_challenge raw
      else on_unexpected type

  -- The `do`-loop, on fuel. Its result is the `advertise_challenge` that it leaves.
  unfoldable pub advertise_loop : ℕ → SocketPtr → ℕ → Run AdvertiseChallenge
  unfolding advertise on_response
  advertise_loop zero socket advertise_retries = stop stuck
  advertise_loop (suc fuel) socket advertise_retries =
      let more = advertise_loop fuel socket (advertise_retries + 1) in
      do
        send_and_log socket (message advertise)
        raw ← receive_raw socket
        type ← lift (decode_message_type raw)
        on_response type raw advertise_retries more

  on_identification : Bytes → Run (Unit {0})
  on_identification raw = do
    identification ← lift (decode {T = PeerIdentification} raw)
    let address : SocketAddress = record {
      ip = identification.payload.ip;
      port = identification.payload.port;
    }
    let punched : PunchedPeer = record {
      peer = peer;
      address = address;
      version = identification.payload.version;
    }
    modify_connection (λ c. record c { punched_peer = some punched; connected = true })

  on_disconnect : Bytes → Run (Unit {0})
  on_disconnect raw = do
    disconnect ← lift (decode {T = PeerDisconnect} raw)
    modify_connection
        (λ c. record c { peer_disconnect = some disconnect.payload; connected = true })

  -- The last part of `connect`: any other message is logged and leaves the object as it is.
  unfoldable pub await_peer : SocketPtr → Run (Unit {0})
  unfolding on_identification on_disconnect
  await_peer socket = do
    raw ← receive_raw socket
    type ← lift (decode_message_type raw)
    if type == type_peer_identification
        then on_identification raw
        else if type == type_peer_disconnect
        then on_disconnect raw
        else pure tt

  -- The part between the loop and the wait for the peer.
  unfoldable pub answer_challenge : SocketPtr → AdvertiseChallenge → Run (Unit {0})
  answer_challenge socket challenge = do
    decrypted_nonce ←
        catch (lift (private_decrypt our_keypair challenge.encrypted_nonce))
          (crypto_to_runtime (codes "AdvertiseChallenge: Could not decrypt encrypted_nonce"))
    let response : AdvertiseResponse = record { nonce = decrypted_nonce }
    send_and_log socket (message response)

  unfoldable pub connect : SocketCreator → Run (Unit {0})
  connect socket_creator = do
    c ← gets (λ w. w.connection)
    assert (not c.connected)
    socket ← socket_creator (from_address c.mediator.socket_address)
    modify_connection (λ c. record c { socket = socket })
    challenge ← advertise_loop advertise_fuel socket 0
    answer_challenge socket challenge
    await_peer socket

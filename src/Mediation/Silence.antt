-- ===== src/Mediation/Silence.antt =====
-- The handshake with the Mediator does not call the user's function.
use p2psc.Prelude.{ℕ, zero, suc, ◌+◌, Option, none, some, Bytes}
use p2psc.Errors.{Exception, crypto_exception}
use p2psc.Crypto.OpenSsl.{OpenSsl, Base64}
use p2psc.Crypto.Key.{Keypair}
use p2psc.Message.Codec.{JsonLibrary}
use p2psc.Message.Payloads.Mediation.{AdvertiseChallenge}
use p2psc.Net.Objects.{SocketPtr, Peer, SocketAddressOrFileDescriptor}
use p2psc.Net.System.{Os, Trace}
use p2psc.Net.Run.{Run}
use p2psc.Message.Types.{MessageType}
use p2psc.Net.Run.Stable.{Stable, Stable-bind}
use p2psc.Net.Silence.{Ignores}
use p2psc.Net.Socket.{SocketCreator}
use p2psc.Net.Socket.Silence.{close-Stable}
use p2psc.Net.Messages.Silence.{message_effects}
use p2psc.Mediation.{
  crypto_to_runtime, asserted, get_punched_peer, get_peer_disconnect, get_socket, close_socket,
  destroy, on_abort, on_challenge, on_retry, on_response, advertise_loop, await_peer,
  answer_challenge, connect,
}

module _ {P : Trace → Type 0} ⦃i : Ignores P⦄ where
  pub crypto_to_runtime-Stable :
      {A : Type 0} (what : Bytes) (e : Exception) → Stable P (crypto_to_runtime {A = A} what e)
  unfolding crypto_to_runtime
  crypto_to_runtime-Stable what (crypto_exception w) = search message_effects
  crypto_to_runtime-Stable what _ = search message_effects

  asserted-Stable : {A : Type 0} (o : Option A) → Stable P (asserted o)
  unfolding asserted
  asserted-Stable none = search message_effects depth 14
  asserted-Stable (some a) = search message_effects depth 14

  pub get_punched_peer-Stable : Stable P get_punched_peer
  unfolding get_punched_peer
  get_punched_peer-Stable = search (message_effects, asserted-Stable) depth 14

  pub get_peer_disconnect-Stable : Stable P get_peer_disconnect
  unfolding get_peer_disconnect
  get_peer_disconnect-Stable = search (message_effects, asserted-Stable) depth 14

  pub get_socket-Stable : Stable P get_socket
  unfolding get_socket
  get_socket-Stable = search message_effects depth 14

  module _ ⦃o : Os⦄ where
    pub close_socket-Stable : Stable P close_socket
    unfolding close_socket
    close_socket-Stable = search (message_effects, get_socket-Stable, close-Stable) depth 14

    pub destroy-Stable : Stable P destroy
    unfolding destroy
    destroy-Stable = search (message_effects, get_socket-Stable) depth 14

pub ruleset object_effects = (
  message_effects, crypto_to_runtime-Stable, get_punched_peer-Stable, get_peer_disconnect-Stable,
  close_socket-Stable,
)

module _ {P : Trace → Type 0} ⦃i : Ignores P⦄ ⦃j : JsonLibrary⦄ ⦃s : OpenSsl⦄ ⦃b : Base64⦄ ⦃o : Os⦄
    (our_keypair : Keypair) (peer : Peer) where
  on_abort-Stable : (raw : Bytes) → Stable P (on_abort our_keypair peer raw)
  unfolding on_abort
  on_abort-Stable raw = search message_effects depth 14

  on_challenge-Stable : (raw : Bytes) → Stable P (on_challenge our_keypair peer raw)
  unfolding on_challenge
  on_challenge-Stable raw = search message_effects depth 14

  on_retry-Stable :
      (raw : Bytes) (retries : ℕ) (more : Run AdvertiseChallenge)
      → Stable P more
      → Stable P (on_retry our_keypair peer raw retries more)
  unfolding on_retry
  on_retry-Stable raw retries more sm = search message_effects depth 14

  on_response-Stable :
      (type : MessageType) (raw : Bytes) (retries : ℕ) (more : Run AdvertiseChallenge)
      → Stable P more
      → Stable P (on_response our_keypair peer type raw retries more)
  unfolding on_response
  on_response-Stable type raw retries more sm = search message_effects depth 14

  advertise_loop-Stable :
      (fuel : ℕ) (socket : SocketPtr) (retries : ℕ)
      → Stable P (advertise_loop our_keypair peer fuel socket retries)
  unfolding advertise_loop
  advertise_loop-Stable zero socket retries = search message_effects
  advertise_loop-Stable (suc fuel) socket retries = Stable-bind _ _ (search message_effects) λ _.
      Stable-bind _ _ (search message_effects) λ raw.
        Stable-bind _ _ (search message_effects) λ type.
          on_response-Stable type raw retries _ (advertise_loop-Stable fuel socket (retries + 1))

  answer_challenge-Stable :
      (socket : SocketPtr) (c : AdvertiseChallenge)
      → Stable P (answer_challenge our_keypair peer socket c)
  unfolding answer_challenge
  answer_challenge-Stable socket c = search object_effects depth 14

  await_peer-Stable : (socket : SocketPtr) → Stable P (await_peer our_keypair peer socket)
  unfolding await_peer
  await_peer-Stable socket = search message_effects depth 20

  pub connect-Stable :
      (creator : SocketCreator)
      → ((a : SocketAddressOrFileDescriptor) → Stable P (creator a))
      → Stable P (connect our_keypair peer creator)
  unfolding connect
  connect-Stable creator created =
      search
        (
          message_effects, created, advertise_loop-Stable, answer_challenge-Stable,
          await_peer-Stable,
        )
        depth 20

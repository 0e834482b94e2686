-- ===== src/Mediation/Exceptions.antt =====
-- The handshake with the Mediator throws no `ConnectionException`.
use p2psc.Prelude.{ℕ, zero, suc, ◌+◌, Option, none, some, Bytes}
use p2psc.Errors.{Exception, crypto_exception, connection_exception}
use p2psc.Crypto.OpenSsl.{OpenSsl, Base64}
use p2psc.Crypto.Key.{Keypair}
use p2psc.Crypto.Exceptions.{private_decrypt-Throws}
use p2psc.Message.Types.{MessageType}
use p2psc.Message.Codec.{JsonLibrary}
use p2psc.Message.Format.Exceptions.{decode-Throws, decode_message_type-Throws}
use p2psc.Message.Payloads.Mediation.{AdvertiseChallenge}
use p2psc.Net.Objects.{SocketPtr, Peer, SocketAddressOrFileDescriptor}
use p2psc.Net.System.{Os}
use p2psc.Net.Run.{Run}
use p2psc.Net.Run.Throws.{IsPlain, Throws, Throws-raise, Throws-bind, throws_rules}
use p2psc.Net.Socket.{SocketCreator}
use p2psc.Net.Socket.Exceptions.{close-Throws}
use p2psc.Net.Messages.Exceptions.{message_throws}
use p2psc.Mediation.{
  crypto_to_runtime, asserted, get_punched_peer, get_peer_disconnect, get_socket, close_socket,
  destroy, on_abort, on_challenge, on_retry, on_unexpected, on_response, advertise_loop,
  on_identification, on_disconnect, await_peer, answer_challenge, connect,
}

pub crypto_to_runtime-Throws :
    {A : Type 0} (what : Bytes) (e : Exception)
    → IsPlain e
    → Throws IsPlain (crypto_to_runtime {A = A} what e)
unfolding crypto_to_runtime
crypto_to_runtime-Throws what (crypto_exception w) h = Throws-raise _ tt
crypto_to_runtime-Throws what (connection_exception k w) h = absurd h
crypto_to_runtime-Throws what _ h = Throws-raise _ tt

asserted-Throws : {A : Type 0} (o : Option A) → Throws IsPlain (asserted o)
unfolding asserted
asserted-Throws none = search throws_rules
asserted-Throws (some a) = search throws_rules

pub get_punched_peer-Throws : Throws IsPlain get_punched_peer
unfolding get_punched_peer
get_punched_peer-Throws = search (throws_rules, asserted-Throws) depth 14

pub get_peer_disconnect-Throws : Throws IsPlain get_peer_disconnect
unfolding get_peer_disconnect
get_peer_disconnect-Throws = search (throws_rules, asserted-Throws) depth 14

module _ ⦃o : Os⦄ where
  pub close_socket-Throws : Throws IsPlain close_socket
  unfolding close_socket get_socket
  close_socket-Throws = search (throws_rules, close-Throws) depth 14

  pub destroy-Throws : Throws IsPlain destroy
  unfolding destroy get_socket
  destroy-Throws = search message_throws depth 14

module _ ⦃j : JsonLibrary⦄ ⦃s : OpenSsl⦄ ⦃b : Base64⦄ ⦃o : Os⦄ (our_keypair : Keypair)
    (peer : Peer) where
  on_response-Throws :
      (type : MessageType) (raw : Bytes) (retries : ℕ) (more : Run AdvertiseChallenge)
      → Throws IsPlain more
      → Throws IsPlain (on_response our_keypair peer type raw retries more)
  unfolding on_response on_abort on_retry on_challenge on_unexpected
  on_response-Throws type raw retries more tm = search (throws_rules, decode-Throws) depth 20

  advertise_loop-Throws :
      (fuel : ℕ) (socket : SocketPtr) (retries : ℕ)
      → Throws IsPlain (advertise_loop our_keypair peer fuel socket retries)
  unfolding advertise_loop
  advertise_loop-Throws zero socket retries = search throws_rules
  advertise_loop-Throws (suc fuel) socket retries = Throws-bind _ _ (search message_throws) λ u.
      Throws-bind _ _ (search message_throws) λ raw.
        Throws-bind _ _ (search decode_message_type-Throws) λ type.
          on_response-Throws type raw retries _ (advertise_loop-Throws fuel socket (retries + 1))

  answer_challenge-Throws :
      (socket : SocketPtr) (c : AdvertiseChallenge)
      → Throws IsPlain (answer_challenge our_keypair peer socket c)
  unfolding answer_challenge
  answer_challenge-Throws socket c =
      search (message_throws, private_decrypt-Throws, crypto_to_runtime-Throws) depth 14

  await_peer-Throws : (socket : SocketPtr) → Throws IsPlain (await_peer our_keypair peer socket)
  unfolding await_peer on_identification on_disconnect
  await_peer-Throws socket =
      search (message_throws, decode-Throws, decode_message_type-Throws) depth 20

  pub connect-Throws :
      (creator : SocketCreator)
      → ((a : SocketAddressOrFileDescriptor) → Throws IsPlain (creator a))
      → Throws IsPlain (connect our_keypair peer creator)
  unfolding connect
  connect-Throws creator created =
      search
        (throws_rules, created, advertise_loop-Throws, answer_challenge-Throws, await_peer-Throws)
        depth 20

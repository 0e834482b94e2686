-- ===== src/Examples/Witnesses.antt =====
-- Each theorem at concrete arguments.
use p2psc.Prelude.{ℕ, ◌≡◌, refl, ◌↔◌, arith, some, [], ◌∷◌, ◌++◌, Bytes, codes, bytes_eq, to_string}
use p2psc.Errors.{ok}
use p2psc.Crypto.OpenSsl.{IsAscii}
use p2psc.Crypto.Rsa.{from_public_key, key_or_throw}
use p2psc.Crypto.Key
use p2psc.Crypto.Rsa
use p2psc.Crypto.Key.{Keypair, PublicKey, encrypt, from_string, get_serialised_public_key}
use p2psc.Crypto.RoundTrip.{Reaches, Refuses, from_string-Reaches, from_public_key-Refuses}
use p2psc.Message.Format.{Message, MessageFormat, message, encode, decode}
use p2psc.Message.RoundTrip.{Fits}
use p2psc.Message.Payloads.Mediation.{PeerIdentification, peer_identification_payload}
use p2psc.Message.Payloads.Handshake.{PeerChallenge, PeerChallengeResponse, peer_challenge_payload}
use p2psc.Net.System.{Os, bytes}
use p2psc.Net.Run.{World, ◌>>=◌, catch}
use p2psc.Net.Run
use p2psc.Net.Socket.{create_socket, send, receive, receive_loop}
use p2psc.Net.Socket.Receive.{Assembles, receive_iff}
use p2psc.Connection.{
  generate_nonce, client_handshake, challenge_peer, answer_peer, answer_client, challenge_client,
  acknowledge_client,
}
use p2psc.Mediation.{get_punched_peer, asserted}
use p2psc.Net.Messages.{send_raw, receive_raw, send_and_log, receive_and_log}
use p2psc.Connection.Callback.{calls, reports, Returns, AtMostOne, start-calls, start-AtMostOne}
use p2psc.Connection.Authentication.{
  PeerAnswers, ClientAnswers, client_handshake-PeerAnswers, answer_client-ClientAnswers,
}
use p2psc.Connection.{connect, start}
use p2psc.Connection.Bounds.{attempt-Bounded}
use p2psc.Net.Run.Bounded.{Bounded}
use p2psc.Net.Socket.Bounds.{create_socket-Bounded}
use p2psc.Mediation
use p2psc.Mediation.Retries.{connect-Bounded}
use p2psc.Examples.Libraries.{toy_json}
use p2psc.Examples.Ciphers.{toy_base64, toy_open_ssl, toy_base64_laws, toy_open_ssl_laws}
use p2psc.Examples.Scripts.{
  handshake_os, answer_os, scripted, client_os, our_keypair, their_key, them, the_mediator, idle,
  ready, silent_callback,
}

silent_callback-Returns : Returns silent_callback
silent_callback-Returns e s w = (refl, refl)

start-calls_example :
    calls (start our_keypair them the_mediator silent_callback idle).1.trace
    ≡ (let (r, w') = connect our_keypair them the_mediator create_socket idle in reports r w' ++ [])
start-calls_example =
    start-calls silent_callback silent_callback-Returns our_keypair them the_mediator idle

start-AtMostOne_example :
    AtMostOne [] (calls (start our_keypair them the_mediator silent_callback idle).1.trace)
start-AtMostOne_example =
    start-AtMostOne silent_callback silent_callback-Returns our_keypair them the_mediator idle

abbrev identification : MessageFormat PeerIdentification
identification = record {
  type = 6;
  payload = record { version = 0; ip = codes "10.0.0.2"; port = 4000 };
}

identification-Fits : Fits identification
identification-Fits = (
  omega arith,
  (
    omega arith,
    (
      (
        omega arith,
        (
          omega arith,
          (
            omega arith,
            (omega arith, (omega arith, (omega arith, (omega arith, (omega arith, tt))))),
          ),
        ),
      ),
      (omega arith, tt),
    ),
  ),
)

from_string-Reaches_example :
    IsAscii (get_serialised_public_key our_keypair)
    × ((public : PublicKey) × (from_string (get_serialised_public_key our_keypair) ≡ ok public)
        × ◌≡◌ {A = ℕ} 256 256
        × Reaches public our_keypair)
unfolding toy_open_ssl
from_string-Reaches_example =
    from_string-Reaches toy_open_ssl_laws toy_base64_laws our_keypair (refl, tt)

from_public_key-Refuses_example : Refuses their_key.pki
unfolding toy_open_ssl from_public_key key_or_throw
from_public_key-Refuses_example = from_public_key-Refuses (3 ∷ 0 ∷ []) their_key.pki refl

abbrev hello_os : Os
hello_os = scripted (codes "hello" ∷ [])

receive_iff_example :
    ((receive ⦃o = hello_os⦄ 0 ready).0 ≡ Run.ok (codes "hello"))
    ↔ Assembles (bytes (codes "hello") 0 ∷ []) (codes "hello")
receive_iff_example = receive_iff ⦃o = hello_os⦄ 0 _ ready (codes "hello") refl refl

client_handshake-PeerAnswers_example :
    (cipher : Bytes) × (encrypt 0 their_key (codes "7") ≡ ok cipher)
    × PeerAnswers ⦃o = handshake_os⦄ our_keypair (some 0) (codes "7") cipher ready
unfolding toy_json toy_open_ssl toy_base64 client_handshake challenge_peer answer_peer to_string
    bytes_eq get_punched_peer asserted generate_nonce send_and_log receive_and_log send_raw
    receive_raw send receive receive_loop ◌>>=◌ catch encrypt Key.private_decrypt Rsa.public_encrypt
    Rsa.private_decrypt message encode decode
client_handshake-PeerAnswers_example =
    client_handshake-PeerAnswers ⦃o = handshake_os⦄ our_keypair (some 0) ready _ refl refl

abbrev challenge : Message PeerChallenge
challenge = record {
  format = record { type = 7; payload = record { encrypted_nonce = codes "AFDEDB" } };
}

answer_client-ClientAnswers_example :
    (response : PeerChallengeResponse) × (Key.private_decrypt our_keypair (codes "AFDEDB")
      ≡ ok response.decrypted_nonce)
    × (encrypt 0 their_key (codes "7") ≡ ok response.encrypted_nonce)
    × ClientAnswers ⦃o = answer_os⦄ our_keypair (some 0) (codes "7") response ready
unfolding toy_json toy_open_ssl toy_base64 answer_client challenge_client acknowledge_client
    to_string bytes_eq generate_nonce send_and_log receive_and_log send_raw receive_raw send receive
    receive_loop ◌>>=◌ catch encrypt Key.private_decrypt Rsa.public_encrypt Rsa.private_decrypt
    message encode decode
answer_client-ClientAnswers_example =
    answer_client-ClientAnswers ⦃o = answer_os⦄ our_keypair (some 0) ready them challenge refl

connect-Bounded_example : Bounded 7 (Mediation.connect our_keypair them create_socket)
connect-Bounded_example = connect-Bounded our_keypair them create_socket create_socket-Bounded

attempt-Bounded_example : Bounded 9 (connect our_keypair them the_mediator create_socket)
attempt-Bounded_example = attempt-Bounded our_keypair them the_mediator

-- ===== src/Examples/HandshakeWitnesses.antt =====
-- The theorems on complete handshakes between the peers at concrete arguments.
use p2psc.Prelude.{◌≡◌, refl, arith, some, codes, bytes_eq, to_string}
use p2psc.Crypto.Key
use p2psc.Crypto.Rsa
use p2psc.Message.Format.{message, encode, decode}
use p2psc.Message.Payloads.Handshake.{
  peer_challenge_payload, peer_challenge_response_payload, peer_response_payload,
  peer_acknowledgement_payload,
}
use p2psc.Net.Run.{World, ok, ◌>>=◌, catch}
use p2psc.Net.System.{Os}
use p2psc.Net.Run.Throws.{OutcomeThrows}
use p2psc.Net.Socket.Exceptions.{create_socket-Throws}
use p2psc.Connection.Kinds.{Explained, handshake, connect-Explained}
use p2psc.Errors.{Error}
use p2psc.Net.Objects.{SocketPtr}
use p2psc.Connection.Safety.Thread.{Anything, start-IsGood}
use p2psc.Net.Run.Safe.{IsGood, Keeps}
use p2psc.Net.Socket.Safety.{HasObject}
use p2psc.Connection.Safety.{attempt-IsGood}
use p2psc.Net.Socket.{create_socket, send, receive, receive_loop}
use p2psc.Net.Messages.{send_raw, receive_raw, send_and_log, receive_and_log}
use p2psc.Mediation.{get_punched_peer, asserted}
use p2psc.Connection.{
  generate_nonce, client_handshake, challenge_peer, answer_peer, answer_client, challenge_client,
  acknowledge_client, connect, peer_handshake,
}
use p2psc.Connection.Completion.{
  peer_challenge, challenge_response, client_handshake-run, answer_client-run,
}
use p2psc.Examples.Libraries.{toy_json, toy_json_laws}
use p2psc.Examples.Ciphers.{toy_base64, toy_open_ssl, toy_base64_laws, toy_open_ssl_laws}
use p2psc.Connection.Agreement.{handshakes-Agree}
use p2psc.Connection.{start}
use p2psc.Examples.Scripts.{
  challenged_os, waiting_os, peer_keypair, us, silent_callback, handshake_os, answer_os,
  our_keypair, them, ready, the_mediator, idle, client_os,
}

abbrev client_end : World
client_end = (client_handshake ⦃o = handshake_os⦄ our_keypair (some 0) ready).1

client_handshake-run_example :
    client_handshake ⦃o = handshake_os⦄ our_keypair (some 0) ready ≡ (ok tt, client_end)
unfolding toy_json toy_open_ssl toy_base64 client_handshake challenge_peer answer_peer to_string
    bytes_eq get_punched_peer asserted generate_nonce send_and_log receive_and_log send_raw
    receive_raw send receive receive_loop ◌>>=◌ catch Key.encrypt Key.private_decrypt
    Rsa.public_encrypt Rsa.private_decrypt message encode decode
client_handshake-run_example =
    client_handshake-run ⦃o = handshake_os⦄ toy_json_laws our_keypair (some 0) _ (codes "99") _
      (challenge_response (codes "AFDJDJ") (codes "7")) ready _ _ _ _ refl refl refl
      (
        refl,
        (
          omega arith,
          (
            (
              omega arith,
              (omega arith, (omega arith, (omega arith, (omega arith, (omega arith, tt))))),
            ),
            ((omega arith, tt), tt),
          ),
        ),
      )
      refl refl refl (refl, (omega arith, tt))

abbrev peer_end : World
peer_end =
    (answer_client ⦃o = answer_os⦄ our_keypair them (some 0)
      (message (peer_challenge (codes "AFDEDB"))) ready).1

answer_client-run_example :
    answer_client ⦃o = answer_os⦄ our_keypair them
      (some 0)
      (message (peer_challenge (codes "AFDEDB")))
      ready
    ≡ (ok tt, peer_end)
unfolding toy_json toy_open_ssl toy_base64 answer_client challenge_client acknowledge_client
    to_string bytes_eq generate_nonce send_and_log receive_and_log send_raw receive_raw send receive
    receive_loop ◌>>=◌ catch Key.encrypt Key.private_decrypt Rsa.public_encrypt Rsa.private_decrypt
    message encode decode
answer_client-run_example =
    answer_client-run ⦃o = answer_os⦄ toy_json_laws our_keypair (some 0) them _ _ (codes "AFDEDB")
      (record { decrypted_nonce = codes "7" }) ready _ _ _ refl refl refl
      (refl, (omega arith, ((omega arith, tt), tt))) refl refl

attempt-IsGood_example :
    IsGood
      (λ q s c. HasObject q s)
      (λ s c. Unit {0})
      (connect our_keypair them the_mediator create_socket idle).0
      (connect our_keypair them the_mediator create_socket idle).1
attempt-IsGood_example = attempt-IsGood our_keypair them the_mediator idle

-- A system on which no connection can be made.
abbrev refused_os : Os
refused_os = record client_os { connect = λ t fd a. some (codes "Connection refused") }

connect-Explained_example :
    OutcomeThrows
      (Explained (
        handshake ⦃o = refused_os⦄ our_keypair them create_socket create_socket-Throws the_mediator
          idle))
      (connect ⦃o = refused_os⦄ our_keypair them the_mediator create_socket idle).0
connect-Explained_example =
    connect-Explained ⦃o = refused_os⦄ our_keypair them create_socket create_socket-Throws
      the_mediator idle

silent_callback-Keeps : (e : Error) (socket : SocketPtr) → Keeps Anything (silent_callback e socket)
silent_callback-Keeps e socket = record { after = λ w h. tt }

start-IsGood_example :
    IsGood
      (λ u. Anything)
      Anything
      (start our_keypair them the_mediator silent_callback idle).0
      (start our_keypair them the_mediator silent_callback idle).1
start-IsGood_example =
    start-IsGood silent_callback silent_callback-Keeps our_keypair them the_mediator idle

abbrev told_end : World
told_end = (client_handshake ⦃o = challenged_os⦄ our_keypair (some 0) ready).1

abbrev known_end : World
known_end = (peer_handshake ⦃o = waiting_os⦄ peer_keypair us (some 0) ready).1

handshakes-Agree_example :
    (client_handshake ⦃o = challenged_os⦄ our_keypair (some 0) ready ≡ (ok tt, told_end))
    × (peer_handshake ⦃o = waiting_os⦄ peer_keypair us (some 0) ready ≡ (ok tt, known_end))
unfolding toy_json toy_open_ssl toy_base64 client_handshake peer_handshake challenge_peer
    answer_peer answer_client challenge_client acknowledge_client to_string bytes_eq
    get_punched_peer asserted generate_nonce send_and_log receive_and_log send_raw receive_raw send
    receive receive_loop ◌>>=◌ catch Key.encrypt Key.private_decrypt Key.from_string
    Key.get_serialised_public_key Rsa.public_encrypt Rsa.private_decrypt message encode decode
handshakes-Agree_example =
    handshakes-Agree challenged_os waiting_os toy_json_laws toy_open_ssl_laws toy_base64_laws
      our_keypair peer_keypair (some 0) (some 0) _ us _ _ ready _ _ _ _ ready _ _ _ _ (refl, tt)
      (refl, tt) refl refl refl (omega arith) (omega arith) refl refl (refl, refl) (refl, refl)
      (refl, refl) (refl, refl)

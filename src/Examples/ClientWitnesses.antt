-- ===== src/Examples/ClientWitnesses.antt =====
-- The theorems on the tests' client and on the messages of a handshake at concrete arguments.
use p2psc.Prelude.{
  ◌≡◌, refl, false, none, some, [], ◌∷◌, ◌++◌, List, Bytes, codes, to_string, bytes_eq,
  if◌then◌else◌,
}
use p2psc.Crypto.Rsa.{Rsa, get_public_key_string, from_public_key, public_encrypt}
use p2psc.Crypto.Rsa
use p2psc.Crypto.Key
use p2psc.Crypto.Key.{get_serialised_public_key}
use p2psc.Message.Format.{message, encode, decode}
use p2psc.Message.Payloads.Mediation.{
  advertise_payload, advertise_challenge_payload, advertise_response_payload,
  peer_identification_payload,
}
use p2psc.Message.Payloads.Handshake.{
  peer_challenge_payload, peer_challenge_response_payload, peer_response_payload,
  peer_acknowledgement_payload,
}
use p2psc.Net.Run.{◌>>=◌, catch}
use p2psc.Net.Run.Written.{whole}
use p2psc.Net.Socket.{send, receive, receive_loop}
use p2psc.Net.Messages.{send_raw, receive_raw, send_and_log, receive_and_log}
use p2psc.Mediation.{get_punched_peer, asserted}
use p2psc.Connection.{
  generate_nonce, client_handshake, challenge_peer, answer_peer, answer_client, challenge_client,
  acknowledge_client, peer_handshake,
}
use p2psc.Connection.Completion.{peer_challenge, peer_response, challenge_response, acknowledgement}
use p2psc.Connection.Exchange.{handshakes-Sent}
use p2psc.Connection.Exchange
use p2psc.Integration.StatefulSocket.{unused, get_sent_messages}
use p2psc.Integration.StatefulSocket.Notes.{sending, receiving, calls, calls-sent}
use p2psc.Integration.Client.{Client, connect_async, connect_sync, in_time, at}
use p2psc.Integration.Client.Result.{handed, abandoned, reported, connect_lem}
use p2psc.Examples.Libraries.{toy_json}
use p2psc.Examples.Ciphers.{toy_base64, toy_open_ssl}
use p2psc.Examples.Scripts.{
  client_os, challenged_os, waiting_os, our_keypair, peer_keypair, us, them, ready, idle,
  the_mediator,
}

calls-sent_example :
    (l : List Bytes) × (get_sent_messages
        (calls (sending (codes "hello") ∷ receiving ∷ []) (unused 0) ready).0
      ≡ get_sent_messages (unused 0) ++ l)
    × (whole (calls (sending (codes "hello") ∷ receiving ∷ []) (unused 0) ready).1.trace
        ≡ whole ready.trace ++ l)
calls-sent_example = calls-sent (sending (codes "hello") ∷ receiving ∷ []) (unused 0) ready

abbrev our_client : Client
our_client = record { peer = them; mediator = the_mediator; keypair = our_keypair }

connect_lem_example :
    (connect_async our_client idle false ≡ (
      if false
      then some (handed (reported our_client idle))
      else abandoned (reported our_client idle)))
    × (connect_sync our_client idle 100 none (at 40) ≡ (
        if in_time 100 none (at 40)
        then some (handed (reported our_client idle))
        else abandoned (reported our_client idle)))
connect_lem_example = connect_lem our_client idle false 100 none (at 40) refl

handshakes-Sent_example :
    ((cipher plain : Bytes) × (whole
          (client_handshake ⦃o = challenged_os⦄ our_keypair (some 0) ready).1.trace
        ≡ whole ready.trace
          ++ (Exchange.text_of (peer_challenge cipher)
              ∷ Exchange.text_of (peer_response plain)
              ∷ [])))
    × ((cipher plain : Bytes) × (whole
            (peer_handshake ⦃o = waiting_os⦄ peer_keypair us (some 0) ready).1.trace
          ≡ whole ready.trace
            ++ (Exchange.text_of (challenge_response cipher plain)
                ∷ Exchange.text_of acknowledgement
                ∷ [])))
unfolding toy_json toy_open_ssl toy_base64 client_handshake peer_handshake challenge_peer
    answer_peer answer_client challenge_client acknowledge_client to_string bytes_eq
    get_punched_peer asserted generate_nonce send_and_log receive_and_log send_raw receive_raw send
    receive receive_loop ◌>>=◌ catch Key.encrypt Key.private_decrypt Rsa.public_encrypt
    Rsa.private_decrypt message encode decode
handshakes-Sent_example =
    handshakes-Sent challenged_os waiting_os our_keypair peer_keypair (some 0) (some 0) us ready
      ready refl refl

-- ===== src/Examples/AttemptWitnesses.antt =====
-- The whole attempt of a client at concrete arguments.
use p2psc.Prelude.{◌≡◌, refl, arith, true, some, [], ◌∷◌, codes, to_string, bytes_eq}
use p2psc.Errors.{unset}
use p2psc.Crypto.Rsa
use p2psc.Crypto.Rsa.{get_public_key_string}
use p2psc.Crypto.Key
use p2psc.Crypto.Key.{get_serialised_public_key}
use p2psc.Message.Format.{message, encode, decode}
use p2psc.Message.Payloads.Mediation.{
  PeerIdentification, advertise_payload, advertise_challenge_payload, advertise_response_payload,
  peer_identification_payload,
}
use p2psc.Message.Payloads.Handshake.{
  PeerChallengeResponse, peer_challenge_payload, peer_challenge_response_payload,
  peer_response_payload, peer_acknowledgement_payload,
}
use p2psc.Net.Objects.{Socket, from_address}
use p2psc.Net.Run.{World, ◌>>=◌, catch}
use p2psc.Net.Socket
use p2psc.Net.Socket.{
  create_socket, socket_from_address, connect_socket, send, receive, receive_loop, close,
}
use p2psc.Net.Messages.{send_raw, receive_raw, send_and_log, release}
use p2psc.Mediation
use p2psc.Mediation.{close_socket}
use p2psc.Mediation.Completion.{advertise_response, holding, punched, identified}
use p2psc.Connection.{start, generate_nonce}
use p2psc.Connection.Completion.{challenge_response, peer_challenge, peer_response}
use p2psc.Connection.Callback.{calls}
use p2psc.Connection.Attempt.{begun}
use p2psc.Connection.Attempt.Client.{start-run}
use p2psc.Examples.Libraries.{toy_json, toy_json_laws}
use p2psc.Examples.Ciphers.{toy_base64, toy_open_ssl}
use p2psc.Examples.Scripts.{client_os, our_keypair, them, idle, the_mediator, silent_callback}

abbrev told : PeerIdentification
told = record { version = 0; ip = codes "10.0.0.2"; port = 4000 }

abbrev response : PeerChallengeResponse
response = challenge_response (codes "AFDJDJ") (codes "7")

-- The states of the attempt, in their order.
abbrev created : World
created = (create_socket (from_address the_mediator.socket_address) (begun the_mediator idle)).1

abbrev advertised : World
advertised =
    (send_and_log (some 0) (message (Mediation.advertise our_keypair them))
      (holding (some 0) created)).1

abbrev challenged : World
challenged = (receive_raw (some 0) advertised).1

abbrev answered : World
answered = (send_and_log (some 0) (message (advertise_response (codes "42"))) challenged).1

abbrev introduced : World
introduced = (receive_raw (some 0) answered).1

abbrev parted : World
parted = (close_socket (identified them told introduced)).1

abbrev reached : World
reached = (create_socket (from_address (punched them told).address) parted).1

abbrev challenging : World
challenging = (send_and_log (some 1) (message (peer_challenge (codes "AGDH"))) reached).1

abbrev responded : World
responded = (receive_raw (some 1) challenging).1

abbrev replied : World
replied = (send_and_log (some 1) (message (peer_response (codes "99"))) responded).1

abbrev acknowledged : World
acknowledged = (receive_raw (some 1) replied).1

abbrev ended : World
ended = (Mediation.destroy acknowledged).1

abbrev the_socket : Socket
the_socket = record {
  sock_fd = some 4;
  is_open = true;
  address = record { ip = codes "10.0.0.2"; port = 4000 };
}

start-run_example :
    calls (start our_keypair them the_mediator silent_callback idle).1.trace ≡ (unset, some 1) ∷ []
unfolding toy_json toy_open_ssl toy_base64 to_string bytes_eq Mediation.advertise
    get_serialised_public_key get_public_key_string Key.serialise generate_nonce send_and_log
    receive_raw send_raw send receive receive_loop ◌>>=◌ catch Key.encrypt Key.private_decrypt
    Rsa.public_encrypt Rsa.private_decrypt message encode decode create_socket socket_from_address
    connect_socket close_socket close release Mediation.destroy Mediation.get_socket Mediation.new
    Socket.destroy
start-run_example =
    start-run toy_json_laws our_keypair them the_mediator silent_callback (codes "42")
      (codes "AFDEDC") (codes "AGDH") (codes "99") told response (some 0) 1 the_socket idle created
      advertised challenged answered introduced parted reached challenging responded replied
      acknowledged ended (λ e s w. (refl, refl)) refl refl (refl, ground arith) refl refl
      (refl, ground arith) refl refl refl refl refl (refl, ground arith) refl refl refl
      (refl, ground arith) refl refl

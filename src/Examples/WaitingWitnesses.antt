-- ===== src/Examples/WaitingWitnesses.antt =====
-- The whole attempt of a peer that waits at concrete arguments.
use p2psc.Prelude.{
  ◌==◌, List, if◌then◌else◌, ◌≡◌, refl, arith, true, none, some, [], ◌∷◌, Bytes, codes, to_string,
  bytes_eq,
}
use p2psc.Errors.{unset}
use p2psc.Crypto.Rsa
use p2psc.Crypto.Rsa.{get_public_key_string}
use p2psc.Crypto.Key
use p2psc.Crypto.Key.{get_serialised_public_key}
use p2psc.Message.Format.{format_codec, message, encode, decode}
use p2psc.Message.Payloads.Mediation.{
  PeerDisconnect, advertise_payload, advertise_challenge_payload, advertise_response_payload,
  peer_disconnect_payload, advertise_challenge_codec, peer_disconnect_codec,
}
use p2psc.Message.Payloads.Handshake.{
  peer_challenge_codec, peer_response_codec, peer_challenge_payload,
  peer_challenge_response_payload, peer_response_payload, peer_acknowledgement_payload,
}
use p2psc.Net.Objects.{Socket, from_address}
use p2psc.Net.Run.{World, ◌>>=◌, catch}
use p2psc.Net.Socket
use p2psc.Net.Socket.{
  create_socket, socket_from_address, connect_socket, send, receive, receive_loop, close,
  socket_from_descriptor,
}
use p2psc.Net.Messages.{send_raw, receive_raw, send_and_log, release}
use p2psc.Mediation
use p2psc.Mediation.{close_socket}
use p2psc.Mediation.Completion.{advertise_response, holding, disconnected}
use p2psc.Connection.{start, generate_nonce}
use p2psc.Connection.Completion.{challenge_response, peer_response, acknowledgement}
use p2psc.Connection.Callback.{calls}
use p2psc.Connection.Attempt.{begun}
use p2psc.Connection.Attempt.Waiting.{start-accepts}
use p2psc.Net.Listening
use p2psc.Net.Listening.{LocalListeningSocket, listen_on, accept, create_socket_fd, session}
use p2psc.Net.System.{Os}
use p2psc.Net.Run.Bounded.{sends}
use p2psc.Net.Run.{World}
use p2psc.Examples.Libraries.{toy_json, toy_json_laws}
use p2psc.Examples.Ciphers.{toy_base64, toy_open_ssl}
use p2psc.Examples.Scripts.{
  scripted, answers, our_keypair, them, idle, the_mediator, silent_callback,
}

abbrev told : PeerDisconnect
told = record { port = 5000 }

-- The Mediator's messages, and the client's on the descriptor 9 that `accept` returns.
abbrev from_mediator : List Bytes
from_mediator =
    []
    ∷ toy_json.encode (format_codec advertise_challenge_codec)
        (1, ((toy_base64.base64_encode (5 ∷ codes "42"), tt), tt))
    ∷ toy_json.encode (format_codec peer_disconnect_codec) (5, ((5000, tt), tt))
    ∷ []

abbrev from_client : List Bytes
from_client =
    []
    ∷ []
    ∷ toy_json.encode (format_codec peer_challenge_codec)
        (7, ((toy_base64.base64_encode (5 ∷ codes "8"), tt), tt))
    ∷ toy_json.encode (format_codec peer_response_codec) (9, ((codes "7", tt), tt))
    ∷ []

abbrev told_os : Os
told_os = record (scripted []) {
  reads = λ t fd. elim fd [
    | none ↦ []
    | some n ↦ if n == 9 then answers from_client (sends t) else answers from_mediator (sends t)
  ];
}

-- The states of the attempt, in their order.
abbrev created : World
created =
    (create_socket ⦃o = told_os⦄ (from_address the_mediator.socket_address)
      (begun the_mediator idle)).1

abbrev advertised : World
advertised =
    (send_and_log ⦃o = told_os⦄ (some 0)
      (message (Mediation.advertise ⦃o = told_os⦄ our_keypair them)) (holding (some 0) created)).1

abbrev challenged : World
challenged = (receive_raw ⦃o = told_os⦄ (some 0) advertised).1

abbrev answered : World
answered =
    (send_and_log ⦃o = told_os⦄ (some 0) (message (advertise_response (codes "42"))) challenged).1

abbrev sent_away : World
sent_away = (receive_raw ⦃o = told_os⦄ (some 0) answered).1

abbrev parted : World
parted = (close_socket ⦃o = told_os⦄ (disconnected told sent_away)).1

abbrev listening : LocalListeningSocket
listening = record { sockfd = 4; port = 5000; is_open = true }

abbrev listens : World
listens = (listen_on ⦃o = told_os⦄ 5000 parted).1

abbrev accepted : World
accepted = (accept ⦃o = told_os⦄ (create_socket ⦃o = told_os⦄) listening listens).1

abbrev asked : World
asked = (receive_raw ⦃o = told_os⦄ (some 1) accepted).1

abbrev responded : World
responded =
    (send_and_log ⦃o = told_os⦄ (some 1) (message (challenge_response (codes "AGDH") (codes "8")))
      asked).1

abbrev replied : World
replied = (receive_raw ⦃o = told_os⦄ (some 1) responded).1

abbrev acknowledged : World
acknowledged = (send_and_log ⦃o = told_os⦄ (some 1) (message acknowledgement) replied).1

abbrev unlistened : World
unlistened = (Listening.destroy ⦃o = told_os⦄ listening acknowledged).1

abbrev ended : World
ended = (Mediation.destroy ⦃o = told_os⦄ unlistened).1

abbrev the_socket : Socket
the_socket = record {
  sock_fd = some 9;
  is_open = true;
  address = record { ip = codes "10.0.0.9"; port = 40000 };
}

start-accepts_example :
    calls (start ⦃o = told_os⦄ our_keypair them the_mediator silent_callback idle).1.trace
    ≡ (unset, some 1) ∷ []
unfolding toy_json toy_open_ssl toy_base64 to_string bytes_eq Mediation.advertise
    get_serialised_public_key get_public_key_string Key.serialise generate_nonce send_and_log
    receive_raw send_raw send receive receive_loop ◌>>=◌ catch Key.encrypt Key.private_decrypt
    Rsa.public_encrypt Rsa.private_decrypt message encode decode create_socket socket_from_address
    connect_socket socket_from_descriptor close_socket close release Mediation.destroy
    Mediation.get_socket Mediation.new Socket.destroy listen_on create_socket_fd accept session
    Listening.destroy Listening.close
start-accepts_example =
    start-accepts ⦃o = told_os⦄ toy_json_laws our_keypair them the_mediator silent_callback
      (codes "42") (codes "AFDEDC") (codes "AFDI") (codes "AGDH") (codes "8") told
      (peer_response (codes "7")) (some 0) listening 1 the_socket idle created advertised challenged
      answered sent_away parted listens accepted asked responded replied acknowledged unlistened
      ended (λ e s w. (refl, refl)) refl refl (refl, ground arith) refl refl (refl, ground arith)
      refl refl refl (refl, ground arith) refl refl refl (refl, ground arith) refl refl refl refl
      refl

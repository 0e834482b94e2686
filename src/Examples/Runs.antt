-- ===== src/Examples/Runs.antt =====
-- Whole runs of the model on the scripts.
use p2psc.Prelude.{◌≡◌, refl, some, [], ◌∷◌, bytes_eq, to_string}
use p2psc.Errors.{unset}
use p2psc.Crypto.Key
use p2psc.Crypto.Rsa
use p2psc.Message.Format.{message, encode, decode, decode_message_type}
use p2psc.Net.Run.{◌>>=◌, catch, on_exception, scoped}
use p2psc.Net.Socket
use p2psc.Net.Messages.{send_raw, receive_raw, release, send_and_log, receive_and_log}
use p2psc.Mediation
use p2psc.Connection.{
  require_version, generate_nonce, reach_peer, answer_peer, challenge_peer, client_handshake,
  connect_as_client, reach, connect, call, report, handle_connection, start,
}
use p2psc.Connection.Callback.{calls}
use p2psc.Examples.Libraries.{toy_json}
use p2psc.Examples.Ciphers.{toy_base64, toy_open_ssl}
use p2psc.Examples.Scripts.{client_os, our_keypair, them, the_mediator, idle, silent_callback}

-- The client's side succeeds and hands the second socket to the user.
client_attempt :
    calls (start our_keypair them the_mediator silent_callback idle).1.trace ≡ (unset, some 1) ∷ []
unfolding start handle_connection report call connect reach connect_as_client client_handshake
    challenge_peer answer_peer reach_peer generate_nonce require_version ◌>>=◌ catch on_exception
    scoped send_raw receive_raw release send_and_log receive_and_log Mediation.new Mediation.connect
    Mediation.advertise_loop Mediation.answer_challenge Mediation.await_peer
    Mediation.has_punched_peer Mediation.get_punched_peer Mediation.close_socket Mediation.destroy
    Mediation.get_socket Mediation.asserted Socket.create_socket Socket.socket_from_address
    Socket.connect_socket Socket.send Socket.receive Socket.receive_loop Socket.close Socket.destroy
    Socket.get_socket_address bytes_eq to_string toy_json toy_open_ssl toy_base64 Key.encrypt
    Key.private_decrypt Key.get_serialised_public_key Key.serialise Rsa.public_encrypt
    Rsa.private_decrypt message decode decode_message_type encode
client_attempt = refl

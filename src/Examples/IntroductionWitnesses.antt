-- ===== src/Examples/IntroductionWitnesses.antt =====
-- The theorems on the handshake with the tests' Mediator at concrete arguments.
use p2psc.Prelude.{
  ◌==◌, if◌then◌else◌, ◌++◌, ℕ, ◌≡◌, refl, arith, true, false, none, some, [], ◌∷◌, Bytes, codes,
  to_string, bytes_eq,
}
use p2psc.Errors
use p2psc.Crypto.Rsa.{Rsa, get_public_key_string, from_public_key, public_encrypt}
use p2psc.Crypto.Rsa
use p2psc.Crypto.Key
use p2psc.Crypto.Key.{get_serialised_public_key}
use p2psc.Message.Format.{format_codec, message, encode, decode}
use p2psc.Message.Payloads.Mediation.{
  Advertise, AdvertiseResponse, advertise_payload, advertise_challenge_codec,
  advertise_challenge_payload, advertise_response_payload, peer_identification_codec,
  peer_identification_payload,
}
use p2psc.Message.Payloads.Handshake.{
  peer_challenge_payload, peer_challenge_response_payload, peer_response_payload,
  peer_acknowledgement_payload,
}
use p2psc.Net.Objects.{SocketAddress, from_address}
use p2psc.Net.System.{Os, opened, failed}
use p2psc.Net.Run.Written.{whole}
use p2psc.Net.Run.{World, ok, ◌>>=◌}
use p2psc.Net.Socket.{
  create_socket, socket_from_address, connect_socket, send, receive, receive_loop,
}
use p2psc.Net.Messages.{send_raw, receive_raw, send_and_log}
use p2psc.Mediation
use p2psc.Mediation.{get_punched_peer, asserted}
use p2psc.Mediation.Completion
use p2psc.Integration.Store.{PeerIdentifier}
use p2psc.Integration.Handle.{FakeMediator}
use p2psc.Integration.FakeMediator.{
  new, finished, challenging, awaiting_response, looking_up, identified, on_advertise, challenge,
  on_response, identify,
}
use p2psc.Integration.FakeMediator.System.{request_quit}
use p2psc.Integration.FakeMediator.Challenge.{challenged}
use p2psc.Integration.FakeMediator.Introduction.{
  heard, said, identification, text_of, introduction-Agrees,
}
use p2psc.Integration.ClientTest.{
  should_send_valid_advertise, should_correctly_prove_identity_with_nonce,
}
use p2psc.Integration.ClientTest.Passing.{test_cases-pass}
use p2psc.Examples.Libraries.{toy_json, toy_json_laws}
use p2psc.Examples.Ciphers.{toy_base64, toy_open_ssl, toy_base64_laws, toy_open_ssl_laws}
use p2psc.Examples.Scripts.{scripted, client_os, our_keypair, them, idle, the_mediator}

-- A Mediator that challenges our key and names a peer.
abbrev found_peer : PeerIdentifier
found_peer = record { socket_address = record { ip = codes "10.0.0.2"; port = 4000 }; version = 0 }

abbrev our_cipher : Bytes
our_cipher = codes "AFDBDDDDDH"

abbrev introducing_os : Os
introducing_os = scripted (
    []
    ∷ toy_json.encode (format_codec advertise_challenge_codec) (1, ((our_cipher, tt), tt))
    ∷ toy_json.encode (format_codec peer_identification_codec)
        (6, ((0, (codes "10.0.0.2", (4000, tt))), tt))
    ∷ [])

abbrev our_address : SocketAddress
our_address = record { ip = codes "10.0.0.5"; port = 1000 }

abbrev ours : Advertise
ours = Mediation.advertise ⦃o = introducing_os⦄ our_keypair them

abbrev answer : AdvertiseResponse
answer = record { nonce = to_string 1337 }

abbrev unquitting : FakeMediator
unquitting = new the_mediator 255

abbrev read_key : Rsa
read_key = record { key = 5; has_private_key = false }

-- The client's state before the attempt and after each message.
abbrev unconnected : World
unconnected = record idle {
  connection = record {
    mediator = the_mediator;
    connected = false;
    punched_peer = none;
    peer_disconnect = none;
    socket = none;
  };
}

abbrev created : World
created =
    (create_socket ⦃o = introducing_os⦄ (from_address the_mediator.socket_address) unconnected).1

abbrev advertised : World
advertised =
    (send_and_log ⦃o = introducing_os⦄ (some 0) (message ours)
      (Completion.holding (some 0) created)).1

abbrev challenged_world : World
challenged_world = (receive_raw ⦃o = introducing_os⦄ (some 0) advertised).1

abbrev answered : World
answered = (send_and_log ⦃o = introducing_os⦄ (some 0) (message answer) challenged_world).1

abbrev introduced : World
introduced = (receive_raw ⦃o = introducing_os⦄ (some 0) answered).1

introduction-Agrees_example :
    (on_advertise our_address (Errors.ok (text_of ours)) unquitting
      ≡ (Errors.ok (challenging ours), heard (text_of ours) unquitting))
    × (challenge our_address ours 0 (Errors.ok tt) (heard (text_of ours) unquitting) ≡ (
      Errors.ok (awaiting_response ours),
      challenged our_address ours (heard (text_of ours) unquitting) our_cipher,
    ))
    × (on_response our_address ours
          (Errors.ok (text_of answer))
          (challenged our_address ours (heard (text_of ours) unquitting) our_cipher)
        ≡ (
          Errors.ok (looking_up ours),
          heard
              (text_of answer)
              (challenged our_address ours (heard (text_of ours) unquitting) our_cipher),
        ))
    × (identify our_address ours found_peer (Errors.ok tt) unquitting ≡ (
      Errors.ok (identified ours found_peer),
      said (text_of (identification found_peer)) unquitting,
    ))
    × (Mediation.connect ⦃o = introducing_os⦄ our_keypair them
          (create_socket ⦃o = introducing_os⦄)
          unconnected
        ≡ (ok tt, Completion.identified them (identification found_peer) introduced))
unfolding toy_json toy_open_ssl toy_base64 to_string bytes_eq encode decode message new
    get_serialised_public_key get_public_key_string Key.serialise from_public_key public_encrypt
    Mediation.advertise create_socket socket_from_address connect_socket send_and_log send_raw
    receive_raw send receive receive_loop ◌>>=◌ Key.private_decrypt Rsa.private_decrypt
introduction-Agrees_example =
    introduction-Agrees ⦃o = introducing_os⦄ toy_json_laws toy_open_ssl_laws toy_base64_laws
      our_keypair them our_address 0 read_key our_cipher found_peer unquitting unquitting
      (create_socket ⦃o = introducing_os⦄) (some 0) unconnected created advertised challenged_world
      answered introduced (refl, tt) (omega arith) refl refl
      (omega arith, (omega arith, (omega arith, (omega arith, tt)))) refl refl refl refl refl refl
      refl refl refl refl

abbrev quitting : ℕ → FakeMediator
quitting type = request_quit type (new the_mediator 255)

-- The same system, where nothing more is read on a second descriptor.
abbrev cut_off_os : Os
cut_off_os = record introducing_os {
  reads = λ t fd. elim fd [
    | none ↦ []
    | some n ↦ if n == 4 then failed (codes "reset") ∷ [] else introducing_os.reads t (some n)
  ];
}

-- A client that gets this descriptor, before the attempt and after each step.
abbrev second_unconnected : World
second_unconnected = record unconnected { trace = opened 3 ∷ [] }

abbrev second_created : World
second_created =
    (create_socket ⦃o = cut_off_os⦄ (from_address the_mediator.socket_address) second_unconnected).1

abbrev second_advertised : World
second_advertised =
    (send_and_log ⦃o = cut_off_os⦄ (some 0) (message ours)
      (Completion.holding (some 0) second_created)).1

abbrev second_refused : World
second_refused = (receive_raw ⦃o = cut_off_os⦄ (some 0) second_advertised).1

test_cases-pass_example :
    ((sent : Bytes) × (whole
          (Mediation.connect ⦃o = cut_off_os⦄ our_keypair them
            (create_socket ⦃o = cut_off_os⦄)
            second_unconnected).1.trace
        ≡ whole second_unconnected.trace ++ (sent ∷ []))
      × (on_advertise our_address (Errors.ok sent) (quitting 0)
          ≡ (Errors.ok finished, heard sent (quitting 0)))
      × (should_send_valid_advertise (heard sent (quitting 0)) our_keypair them.public_key
          ≡ Errors.ok true))
    × ((first second : Bytes) × (whole
            (Mediation.connect ⦃o = cut_off_os⦄ our_keypair them
              (create_socket ⦃o = cut_off_os⦄)
              unconnected).1.trace
          ≡ whole unconnected.trace ++ (first ∷ second ∷ []))
        × (on_advertise our_address (Errors.ok first) (quitting 2)
            ≡ (Errors.ok (challenging ours), heard first (quitting 2)))
        × (challenge our_address ours 0 (Errors.ok tt) (heard first (quitting 2)) ≡ (
          Errors.ok (awaiting_response ours),
          challenged our_address ours (heard first (quitting 2)) our_cipher,
        ))
        × (on_response our_address ours
              (Errors.ok second)
              (challenged our_address ours (heard first (quitting 2)) our_cipher)
            ≡ (
              Errors.ok finished,
              heard second (challenged our_address ours (heard first (quitting 2)) our_cipher),
            ))
        × (should_correctly_prove_identity_with_nonce
              (heard second (challenged our_address ours (heard first (quitting 2)) our_cipher))
              our_keypair
            ≡ Errors.ok true))
unfolding toy_json toy_open_ssl toy_base64 to_string bytes_eq encode decode message new
    get_serialised_public_key get_public_key_string Key.serialise from_public_key public_encrypt
    Mediation.advertise create_socket socket_from_address connect_socket send_and_log send_raw
    receive_raw send receive receive_loop ◌>>=◌ Key.private_decrypt Rsa.private_decrypt
test_cases-pass_example =
    test_cases-pass ⦃o = cut_off_os⦄ toy_json_laws toy_open_ssl_laws toy_base64_laws our_keypair
      them our_address the_mediator 255 0 read_key our_cipher (some 0) _ second_unconnected
      second_created second_advertised second_refused unconnected created advertised
      challenged_world answered (refl, tt) (omega arith) refl refl refl refl refl refl refl refl
      refl refl refl

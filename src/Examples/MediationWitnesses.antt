-- ===== src/Examples/MediationWitnesses.antt =====
-- The theorems on the handshake with the Mediator and on closed sockets at concrete arguments.
use p2psc.Prelude.{◌≡◌, refl, ◌↔◌, arith, true, some, none, [], ◌∷◌, codes, length, bytes_eq}
use p2psc.Crypto.Key.{get_serialised_public_key, serialise}
use p2psc.Message.Format.{message, encode, decode, decode_message_type, format_codec}
use p2psc.Message.Payloads.Mediation.{
  AdvertiseChallenge, AdvertiseRetry, advertise_retry_payload, advertise_challenge_payload,
  advertise_retry_codec, advertise_challenge_codec,
}
use p2psc.Net.System.{Os}
use p2psc.Net.Run.{World, crashed, ok, ◌>>=◌}
use p2psc.Net.Socket.{create_socket, send, receive, receive_loop, close}
use p2psc.Net.Socket.Closing.{IsDead, close-IsDead, send_iff}
use p2psc.Net.Messages.{send_raw, receive_raw, send_and_log}
use p2psc.Net.Listening.{LocalListeningSocket}
use p2psc.Connection.{accept_client}
use p2psc.Connection.Faults.{accept_client-crashed}
use p2psc.Mediation.{advertise, advertise_fuel, advertise_loop}
use p2psc.Mediation.Replies.{retry, challenge, verdict, advertise_loop-verdict}
use p2psc.Examples.Libraries.{toy_json, toy_json_laws}
use p2psc.Examples.Ciphers.{toy_base64, toy_open_ssl}
use p2psc.Examples.Scripts.{scripted, our_keypair, them, ready}

abbrev the_retry : AdvertiseRetry
the_retry = record { reason = codes "port" }

abbrev the_challenge : AdvertiseChallenge
the_challenge = record { encrypted_nonce = codes "AFDEDB" }

abbrev mediator_os : Os
mediator_os = scripted (
    []
    ∷ toy_json.encode (format_codec advertise_retry_codec) (4, ((codes "port", tt), tt))
    ∷ toy_json.encode (format_codec advertise_challenge_codec) (1, ((codes "AFDEDB", tt), tt))
    ∷ [])

abbrev settled : World
settled = (advertise_loop ⦃o = mediator_os⦄ our_keypair them advertise_fuel (some 0) 0 ready).1

advertise_loop-verdict_example :
    advertise_loop ⦃o = mediator_os⦄ our_keypair them advertise_fuel (some 0) 0 ready
    ≡ (ok the_challenge, settled)
unfolding verdict advertise_loop toy_json toy_open_ssl toy_base64 advertise message encode
    send_and_log send_raw receive_raw send receive receive_loop ◌>>=◌ decode decode_message_type
    bytes_eq get_serialised_public_key serialise
advertise_loop-verdict_example =
    advertise_loop-verdict ⦃o = mediator_os⦄ toy_json_laws our_keypair them (some 0)
      (retry the_retry ∷ challenge the_challenge ∷ []) ready settled (ok the_challenge)
      (
        _,
        _,
        refl,
        refl,
        (omega arith, (omega arith, (omega arith, (omega arith, tt)))),
        (
          _,
          _,
          refl,
          refl,
          (
            omega arith,
            (omega arith, (omega arith, (omega arith, (omega arith, (omega arith, tt))))),
          ),
          refl,
        ),
      )
      refl

close-IsDead_example : IsDead ⦃o = mediator_os⦄ 0 (close ⦃o = mediator_os⦄ 0 ready).1
unfolding close ◌>>=◌
close-IsDead_example = close-IsDead ⦃o = mediator_os⦄ 0 ready refl

send_iff_example :
    ((send ⦃o = mediator_os⦄ 0 (codes "hi") ready).0 ≡ ok tt)
    ↔ ((true ≡ true) × (some (length (codes "hi")) ≡ some (length (codes "hi"))))
send_iff_example = send_iff ⦃o = mediator_os⦄ 0 _ (codes "hi") ready refl

abbrev refusing_os : Os
refusing_os = record mediator_os { accept = λ t fd. none }

abbrev listening : LocalListeningSocket
listening = record { sockfd = 5; port = 4000; is_open = true }

accept_client-crashed_example :
    accept_client ⦃o = refusing_os⦄ our_keypair them
      (create_socket ⦃o = refusing_os⦄)
      listening
      ready
    ≡ (crashed, ready)
accept_client-crashed_example =
    accept_client-crashed ⦃o = refusing_os⦄ our_keypair them (create_socket ⦃o = refusing_os⦄)
      listening ready refl refl

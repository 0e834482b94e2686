-- ===== src/Examples/Scripts.antt =====
-- A system whose peers answer by a script, and the client's side of a whole attempt on it.
use p2psc.Prelude.{ℕ, suc, true, false, none, some, List, [], ◌∷◌, Bytes, codes, length, get_elem?}
use p2psc.Crypto.Key.{Keypair, PublicKey}
use p2psc.Message.Format.{format_codec}
use p2psc.Message.Payloads.Mediation.{advertise_challenge_codec, peer_identification_codec}
use p2psc.Message.Payloads.Handshake.{
  peer_challenge_codec, peer_challenge_response_codec, peer_response_codec,
  peer_acknowledgement_codec,
}
use p2psc.Net.Objects.{Peer, Mediator}
use p2psc.Net.System.{Os, Trace, Read, bytes, opened}
use p2psc.Net.Run.{World, Outcome, ok}
use p2psc.Net.Run.Bounded.{sends}
use p2psc.Mediation
use p2psc.Connection.{Callback, start}
use p2psc.Examples.Libraries.{toy_json}
use p2psc.Examples.Ciphers.{toy_base64, toy_open_ssl}

-- One message for each number of messages that were sent before it, in one piece.
abbrev pub answers : List Bytes → ℕ → List Read
answers script n = elim (get_elem? script n) [ none ↦ [] | some m ↦ bytes m 0 ∷ [] ]

abbrev openings : Trace → ℕ
openings [] = 3
openings (opened fd ∷ t) = suc (openings t)
openings (_ ∷ t) = openings t

abbrev pub scripted : List Bytes → Os
scripted script = record {
  socket = λ t. some (openings t);
  inet_pton = λ ip. ip;
  connect = λ t fd a. none;
  getpeername = λ t fd. record { ip = codes "10.0.0.9"; port = 40000 };
  send_size = λ t fd m. some (length m);
  send_errno = λ t fd m. none;
  reads = λ t fd. answers script (sends t);
  close = λ t fd. none;
  reuse_address = λ t fd. true;
  bind = λ t fd port. none;
  getsockname_port = λ t fd. 50000;
  accept = λ t fd. some 9;
  time = λ t. 7;
  rand = λ seed. seed;
  padding = λ t. 0;
}

abbrev pub our_keypair : Keypair
our_keypair = record { pki = record { key = 5; has_private_key = true } }

abbrev pub their_key : PublicKey
their_key = record { pki = record { key = 6; has_private_key = false } }

abbrev pub them : Peer
them = record { public_key = their_key }

abbrev pub the_mediator : Mediator
the_mediator = record { socket_address = record { ip = codes "10.0.0.1"; port = 1337 } }

abbrev pub idle : World
idle = record { trace = []; sockets = []; connection = Mediation.new the_mediator }

-- The Mediator's challenge and identification, the other side's response and acknowledgement.
abbrev pub client_script : List Bytes
client_script =
    []
    ∷ toy_json.encode (format_codec advertise_challenge_codec)
        (1, ((toy_base64.base64_encode (5 ∷ codes "42"), tt), tt))
    ∷ toy_json.encode (format_codec peer_identification_codec)
        (6, ((0, (codes "10.0.0.2", (4000, tt))), tt))
    ∷ toy_json.encode (format_codec peer_challenge_response_codec)
        (8, ((toy_base64.base64_encode (5 ∷ codes "99"), (codes "7", tt)), tt))
    ∷ toy_json.encode (format_codec peer_acknowledgement_codec) (10, (tt, tt))
    ∷ []

instance abbrev pub client_os : Os
client_os = scripted client_script

abbrev pub silent_callback : Callback
silent_callback e s w = (ok tt, w)

client_run : Outcome (Unit {0}) × World
client_run = start our_keypair them the_mediator silent_callback idle

-- One open socket, and a peer to reach.
abbrev pub ready : World
ready = record {
  trace = [];
  sockets =
      record {
        sock_fd = some 4;
        is_open = true;
        address = record { ip = codes "10.0.0.2"; port = 4000 };
      }
      ∷ [];
  connection = record {
    mediator = the_mediator;
    connected = true;
    punched_peer = some (record {
      peer = them;
      address = record { ip = codes "10.0.0.2"; port = 4000 };
      version = 0;
    });
    peer_disconnect = none;
    socket = none;
  };
}

abbrev pub handshake_os : Os
handshake_os = scripted (
    []
    ∷ toy_json.encode (format_codec peer_challenge_response_codec)
        (8, ((toy_base64.base64_encode (5 ∷ codes "99"), (codes "7", tt)), tt))
    ∷ toy_json.encode (format_codec peer_acknowledgement_codec) (10, (tt, tt))
    ∷ [])

abbrev pub answer_os : Os
answer_os =
    scripted
      ([] ∷ toy_json.encode (format_codec peer_response_codec) (9, ((codes "7", tt), tt)) ∷ [])

-- The two ends of one handshake: what each sends, the other reads.
abbrev pub challenged_os : Os
challenged_os = scripted (
    []
    ∷ toy_json.encode (format_codec peer_challenge_response_codec)
        (8, ((toy_base64.base64_encode (5 ∷ codes "8"), (codes "7", tt)), tt))
    ∷ toy_json.encode (format_codec peer_acknowledgement_codec) (10, (tt, tt))
    ∷ [])

abbrev pub waiting_os : Os
waiting_os =
    record (scripted (
      toy_json.encode (format_codec peer_challenge_codec)
        (7, ((toy_base64.base64_encode (6 ∷ codes "7"), tt), tt))
      ∷ toy_json.encode (format_codec peer_response_codec) (9, ((codes "8", tt), tt))
      ∷ [])) { time = λ t. 8 }

abbrev pub peer_keypair : Keypair
peer_keypair = record { pki = record { key = 6; has_private_key = true } }

abbrev pub us : Peer
us = record { public_key = record { pki = record { key = 5; has_private_key = false } } }

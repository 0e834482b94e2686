-- ===== src/Examples/RunWitnesses.antt =====
-- One whole run of the Mediator of the integration tests, and the theorems on every run at it.
use p2psc.Prelude.{refl, [], ◌∷◌, Bytes, codes, bytes_eq}
use p2psc.Errors.{ok}
use p2psc.Message.Format.{format_codec, message, encode, decode}
use p2psc.Message.Payloads.Mediation.{advertise_codec, advertise_response_codec}
use p2psc.Net.Objects.{address_eq}
use p2psc.Integration.Store.{get, put}
use p2psc.Integration.Handle.{contains, insert, erase, ◌>>=◌}
use p2psc.Integration.FakeMediator.{
  new, received, sent, scheduled, identified, disconnected, handle_connection, quit_if_requested,
  send_and_log, receive_and_log, on_wake, client_or_peer,
}
use p2psc.Integration.FakeMediator.System.{
  System, Reaches, here, next, started, entered, accepted, handled, fresh, run, enter_accept,
  accept_session, advanced,
}
use p2psc.Integration.FakeMediator.Sets.{HasDisconnected}
use p2psc.Integration.FakeMediator.Asked.{named-HasRegistered}
use p2psc.Integration.FakeMediator.Provenance.{HasRegistered}
use p2psc.Integration.FakeMediator.Order.{promise-HasDisconnected}
use p2psc.Crypto.Rsa
use p2psc.Crypto.Rsa.{get_public_key_string}
use p2psc.Message.Payloads.Mediation.{advertise_challenge_payload}
use p2psc.Examples.Libraries.{toy_json}
use p2psc.Examples.Ciphers.{toy_base64, toy_open_ssl}
use p2psc.Examples.Scripts.{the_mediator}
use p2psc.Examples.IntegrationWitnesses.{client_address, peer_address, client_key, peer_key}

-- A whole run: the client advertises itself and registers, then the peer.
abbrev advertises : Bytes → Bytes → Bytes
advertises ours theirs =
    toy_json.encode (format_codec advertise_codec) (0, ((0, (ours, (theirs, tt))), tt))

abbrev responds : Bytes
responds = toy_json.encode (format_codec advertise_response_codec) (2, ((codes "1337", tt), tt))

-- A client, its peer, and all that the Mediator does for them.
abbrev served : (t : System) × Reaches (fresh the_mediator 255) t
unfolding toy_json toy_open_ssl toy_base64 fresh new run enter_accept accept_session advanced
    handle_connection quit_if_requested send_and_log receive_and_log on_wake client_or_peer get put
    contains insert erase address_eq bytes_eq encode decode message Rsa.from_public_key
    Rsa.public_encrypt ◌>>=◌
served = (
  _,
  (next
      (next
        (next
          (next
            (next
              (next
                (next
                  (next
                    (next
                      (next
                        (next
                          (next
                            (next
                              (next
                                (next
                                  (next
                                    (next
                                      (next
                                        (next (next here (started _ refl)) (entered _ refl refl))
                                        (accepted client_address refl))
                                      (handled 0 (received (ok (advertises client_key peer_key))) _
                                        _ _ _ refl refl refl refl))
                                    (handled 0 (sent 0 (ok tt)) _ _ _ _ refl refl refl refl))
                                  (handled 0 (received (ok responds)) _ _ _ _ refl refl refl refl))
                                (handled 0 (scheduled 10) _ _ _ _ refl refl refl refl))
                              (handled 0 (scheduled 20) _ _ _ _ refl refl refl refl))
                            (entered _ refl refl))
                          (accepted peer_address refl))
                        (handled 1 (received (ok (advertises peer_key client_key))) _ _ _ _ refl
                          refl refl refl))
                      (handled 1 (sent 0 (ok tt)) _ _ _ _ refl refl refl refl))
                    (handled 1 (received (ok responds)) _ _ _ _ refl refl refl refl))
                  (handled 1 (scheduled 10) _ _ _ _ refl refl refl refl))
                (handled 1 (scheduled 30) _ _ _ _ refl refl refl refl))
              (handled 1 (sent 0 (ok tt)) _ _ _ _ refl refl refl refl))
            (handled 1 (scheduled 40) _ _ _ _ refl refl refl refl))
          (handled 0 (scheduled 50) _ _ _ _ refl refl refl refl))
        (handled 0 (scheduled 60) _ _ _ _ refl refl refl refl))
      (handled 0 (sent 0 (ok tt)) _ _ _ _ refl refl refl refl)),
)

promise-HasDisconnected_example : HasDisconnected peer_address (
    record {
      address = client_address;
      phase =
          identified
            (record { version = 0; our_key = client_key; their_key = peer_key })
            (record { socket_address = peer_address; version = 0 });
    }
    ∷ record {
      address = peer_address;
      phase = disconnected (record { version = 0; our_key = peer_key; their_key = client_key });
    }
    ∷ [])
unfolding served toy_json toy_open_ssl toy_base64 fresh new run enter_accept accept_session advanced
    handle_connection quit_if_requested send_and_log receive_and_log on_wake client_or_peer get put
    contains insert erase address_eq bytes_eq encode decode message Rsa.from_public_key
    Rsa.public_encrypt ◌>>=◌
promise-HasDisconnected_example =
    promise-HasDisconnected the_mediator 255 served.1 0 _
      (record { socket_address = peer_address; version = 0 }) refl refl

named-HasRegistered_example :
    HasRegistered peer_key
      (record { socket_address = peer_address; version = 0 })
      (record {
        address = client_address;
        phase =
            identified
              (record { version = 0; our_key = client_key; their_key = peer_key })
              (record { socket_address = peer_address; version = 0 });
      }
        ∷ record {
          address = peer_address;
          phase = disconnected (record { version = 0; our_key = peer_key; their_key = client_key });
        }
        ∷ [])
unfolding served toy_json toy_open_ssl toy_base64 fresh new run enter_accept accept_session advanced
    handle_connection quit_if_requested send_and_log receive_and_log on_wake client_or_peer get put
    contains insert erase address_eq bytes_eq encode decode message Rsa.from_public_key
    Rsa.public_encrypt ◌>>=◌
named-HasRegistered_example =
    named-HasRegistered the_mediator 255 served.1 0 _ peer_key
      (record { socket_address = peer_address; version = 0 }) refl refl

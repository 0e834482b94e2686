-- ===== src/Examples/IntegrationWitnesses.antt =====
-- The theorems on the Mediator of the integration tests at concrete arguments.
use p2psc.Prelude.{to_string, ◌≡◌, refl, arith, none, List, [], ◌∷◌, Bytes, codes, bytes_eq}
use p2psc.Errors.{ok}
use p2psc.Message.Format.{message, decode}
use p2psc.Message.Payloads.Mediation.{Advertise}
use p2psc.Net.Objects.{SocketAddress}
use p2psc.Integration.Store.{Store, Wake, returned, get, put, await}
use p2psc.Integration.Store.Registration.{after_put, get-put}
use p2psc.Integration.Store.Awaiting.{await-gives_up}
use p2psc.Integration.Handle.{FakeMediator, contains}
use p2psc.Integration.FakeMediator.{
  new, looking_up, awaiting_peer, awaiting_disconnect, identified, disconnected,
  wait_for_disconnect,
}
use p2psc.Integration.FakeMediator.System.{Reaches}
use p2psc.Integration.FakeMediator.Lookups.{identifier, registered, two}
use p2psc.Integration.FakeMediator.Meeting.{met, meet}
use p2psc.Integration.FakeMediator.Race.{race}
use p2psc.Integration.FakeMediator.Challenge.{challenged, challenge_text, challenge-answered}
use p2psc.Integration.FakeMediator.{awaiting_response, challenge}
use p2psc.Crypto.Rsa.{get_public_key_string}
use p2psc.Crypto.Key.{get_serialised_public_key}
use p2psc.Crypto.Key
use p2psc.Message.Payloads.Mediation.{AdvertiseChallenge, advertise_challenge_payload}
use p2psc.Examples.Libraries.{toy_json, toy_json_laws}
use p2psc.Examples.Ciphers.{toy_base64, toy_open_ssl, toy_base64_laws, toy_open_ssl_laws}
use p2psc.Examples.Scripts.{the_mediator, our_keypair}

abbrev pub client_address : SocketAddress
client_address = record { ip = codes "10.0.0.5"; port = 1000 }

abbrev pub peer_address : SocketAddress
peer_address = record { ip = codes "10.0.0.6"; port = 2000 }

abbrev client_advertise : Advertise
client_advertise = record { version = 0; our_key = codes "A"; their_key = codes "B" }

abbrev peer_advertise : Advertise
peer_advertise = record { version = 0; our_key = codes "B"; their_key = codes "A" }

-- An identifier of the byte string "A", and one that comes too late.
abbrev first_store : Store
first_store = (codes "A", identifier client_address client_advertise) ∷ []

get-put_example :
    get (codes "A") (put (codes "A") (identifier peer_address client_advertise) first_store)
    ≡ after_put (codes "A") (codes "A") (identifier peer_address client_advertise) first_store
get-put_example =
    get-put (codes "A") (codes "A") (identifier peer_address client_advertise) first_store

-- Woken after 600 and after 700 of 1000 milliseconds.
abbrev wakes : List Wake
wakes =
    record { store = first_store; now_ms = 5600 }
    ∷ record { store = first_store; now_ms = 5700 }
    ∷ []

await-gives_up_example : await (codes "B") 1000 5000 wakes ≡ returned none
unfolding get bytes_eq
await-gives_up_example =
    await-gives_up (codes "B") 1000 5000 wakes ((refl, omega arith), ((refl, omega arith), tt))
      (omega arith)

abbrev empty : FakeMediator
empty = new the_mediator 255

race_example :
    Reaches
      (two empty client_address
        (looking_up client_advertise)
        peer_address
        (looking_up peer_advertise))
      (two
        (registered peer_address peer_advertise (registered client_address client_advertise empty))
        client_address
        (awaiting_disconnect client_advertise (identifier peer_address peer_advertise))
        peer_address
        (awaiting_disconnect peer_advertise (identifier client_address client_advertise)))
    × (wait_for_disconnect client_address client_advertise
          (identifier peer_address peer_advertise)
          (registered peer_address peer_advertise
            (registered client_address client_advertise empty))
        ≡ (
          ok (awaiting_disconnect client_advertise (identifier peer_address peer_advertise)),
          registered peer_address peer_advertise (registered client_address client_advertise empty),
        ))
    × (wait_for_disconnect peer_address peer_advertise
          (identifier client_address client_advertise)
          (registered peer_address peer_advertise
            (registered client_address client_advertise empty))
        ≡ (
          ok (awaiting_disconnect peer_advertise (identifier client_address client_advertise)),
          registered peer_address peer_advertise (registered client_address client_advertise empty),
        ))
unfolding new get contains bytes_eq
race_example =
    race empty client_address peer_address client_advertise peer_advertise refl refl refl refl refl
      refl refl

abbrev one_client : FakeMediator
one_client = registered client_address client_advertise empty

meet_example :
    Reaches
      (two one_client client_address
        (awaiting_peer client_advertise 0 2000)
        peer_address
        (looking_up peer_advertise))
      (two
        (met one_client client_address peer_address client_advertise peer_advertise)
        client_address
        (identified client_advertise (identifier peer_address peer_advertise))
        peer_address
        (disconnected peer_advertise))
unfolding new get put bytes_eq
meet_example =
    meet one_client client_address peer_address client_advertise peer_advertise 0 2000 refl refl
      refl

abbrev pub client_key : Bytes
client_key = 2 ∷ 1 ∷ []

abbrev pub peer_key : Bytes
peer_key = 3 ∷ 0 ∷ []

-- A session that has advertised the key 5.
abbrev keyed : Advertise
keyed = record { version = 0; our_key = client_key; their_key = peer_key }

challenge-answered_example :
    (cipher : Bytes) × (challenge client_address keyed 0 (ok tt) empty
      ≡ (ok (awaiting_response keyed), challenged client_address keyed empty cipher))
    × (decode (challenge_text client_address keyed empty cipher)
        ≡ ok (message {T = AdvertiseChallenge} (record { encrypted_nonce = cipher })).format)
    × (Key.private_decrypt our_keypair cipher ≡ ok (to_string 1337))
unfolding toy_open_ssl new get_serialised_public_key get_public_key_string
challenge-answered_example =
    challenge-answered toy_json_laws toy_open_ssl_laws toy_base64_laws client_address keyed empty
      our_keypair 0 (refl, tt) (omega arith) refl refl

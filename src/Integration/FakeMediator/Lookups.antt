-- ===== src/Integration/FakeMediator/Lookups.antt =====
-- Single steps of a handler, where the outcome of its look-up is known.
use p2psc.Prelude.{ℕ, ◌+◌, ◌-◌, ◌≡◌, refl, ap, true, false, Option, none, some, [], ◌∷◌}
use p2psc.Errors.{ok}
use p2psc.Crypto.OpenSsl.{OpenSsl, Base64}
use p2psc.Message.Codec.{JsonLibrary}
use p2psc.Message.Payloads.Mediation.{
  Advertise, peer_disconnect_payload, peer_identification_payload,
}
use p2psc.Net.Objects.{SocketAddress}
use p2psc.Integration.Store.{PeerIdentifier, get, put}
use p2psc.Integration.Handle.{FakeMediator, contains, erase, ◌>>=◌}
use p2psc.Integration.FakeMediator.{
  Phase, registering_client, awaiting_disconnect, identifying, registering_peer, client_or_peer,
  on_wake, look_up, wake, wait_for_disconnect,
}
use p2psc.Integration.FakeMediator.System.{System}

-- What a session registers.
abbrev pub identifier : SocketAddress → Advertise → PeerIdentifier
identifier address a = record { socket_address = address; version = a.version }

-- The Mediator after a session has registered.
abbrev pub registered : SocketAddress → Advertise → FakeMediator → FakeMediator
registered address a m = record m {
  key_to_identifier_store = put a.our_key (identifier address a) m.key_to_identifier_store;
}

-- A Mediator with two sessions.
abbrev pub two : FakeMediator → SocketAddress → Phase → SocketAddress → Phase → System
two m x p y q = record {
  mediator = m;
  sessions = record { address = x; phase = p } ∷ record { address = y; phase = q } ∷ [];
  accepting = false;
  terminated = none;
}

module _ ⦃j : JsonLibrary⦄ ⦃s : OpenSsl⦄ ⦃b : Base64⦄ (address : SocketAddress) (a : Advertise)
    (m : FakeMediator) where
  pub look_up-none :
      get a.their_key m.key_to_identifier_store ≡ none
      → look_up address a m ≡ (ok (registering_client a), m)
  unfolding look_up client_or_peer ◌>>=◌
  look_up-none missing = ap {A = Option PeerIdentifier} (λ o. (ok (client_or_peer a o), m)) missing

  pub look_up-some :
      (p : PeerIdentifier)
      → get a.their_key m.key_to_identifier_store ≡ some p
      → look_up address a m ≡ (ok (registering_peer a p), m)
  unfolding look_up client_or_peer ◌>>=◌
  look_up-some p known = ap {A = Option PeerIdentifier} (λ o. (ok (client_or_peer a o), m)) known

  pub wake-some :
      (start_ms wait_ms now_ms : ℕ) (p : PeerIdentifier)
      → get a.their_key m.key_to_identifier_store ≡ some p
      → wake address a start_ms wait_ms now_ms m ≡ (ok (awaiting_disconnect a p), m)
  unfolding wake on_wake ◌>>=◌
  wake-some start_ms wait_ms now_ms p known =
      ap {A = Option PeerIdentifier}
        (λ o. (ok (on_wake a start_ms o ((wait_ms + start_ms) - now_ms)), m)) known

  pub wait-missing :
      (p : PeerIdentifier)
      → contains p.socket_address m.completed_disconnects ≡ false
      → wait_for_disconnect address a p m ≡ (ok (awaiting_disconnect a p), m)
  unfolding wait_for_disconnect ◌>>=◌
  wait-missing p absent = rw absent refl

  pub wait-found :
      (p : PeerIdentifier)
      → contains p.socket_address m.completed_disconnects ≡ true
      → wait_for_disconnect address a p m ≡ (
        ok (identifying a p),
        record m { completed_disconnects = erase p.socket_address m.completed_disconnects },
      )
  unfolding wait_for_disconnect ◌>>=◌
  wait-found p there = rw there refl

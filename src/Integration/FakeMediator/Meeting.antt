-- ===== src/Integration/FakeMediator/Meeting.antt =====
-- A Client that waits, and its Peer that comes later.
use p2psc.Prelude.{
  ℕ, ◌≡◌, refl, ap, ◌∙◌, true, Bool-cases, inl, inr, none, some, List, [], ◌∷◌, ◌++◌,
}
use p2psc.Errors.{ok}
use p2psc.Crypto.OpenSsl.{OpenSsl, Base64}
use p2psc.Message.Codec.{JsonLibrary}
use p2psc.Message.Format.{message, encode}
use p2psc.Message.Payloads.Mediation.{
  Advertise, PeerDisconnect, PeerIdentification, peer_disconnect_payload,
  peer_identification_payload,
}
use p2psc.Net.Objects.{SocketAddress}
use p2psc.Integration.Store.{get}
use p2psc.Integration.Store.Registration.{put-new}
use p2psc.Integration.Handle.{FakeMediator, contains, insert, erase, ◌>>=◌}
use p2psc.Integration.FakeMediator.{
  looking_up, awaiting_peer, awaiting_disconnect, identifying, identified, registering_peer,
  disconnecting, adding_disconnect, disconnected, scheduled, sent, send_and_log, look_up, register,
  wake, wait_for_disconnect, identify, register_peer, disconnect, add_to_disconnects,
  handle_connection,
}
use p2psc.Integration.FakeMediator.System.{Reaches, handled, here, next, advanced}
use p2psc.Integration.FakeMediator.Lookups.{
  identifier, registered, two, look_up-some, wake-some, wait-found,
}
use p2psc.Integration.FakeMediator.Sets.{address_eq_refl}

contains-insert : (x : SocketAddress) (set : List SocketAddress) → contains x (insert x set) ≡ true
unfolding contains insert
contains-insert x set = elim (Bool-cases (contains x set)) [
  | inl there ↦ rw there there
  | inr absent ↦ rw absent (rw (address_eq_refl x) refl)
]

module _ ⦃j : JsonLibrary⦄ ⦃ssl : OpenSsl⦄ ⦃b : Base64⦄ (m : FakeMediator) (x y : SocketAddress)
    (a c : Advertise) where
  -- What the Peer is told.
  abbrev pub peer_disconnect : PeerDisconnect
  peer_disconnect = record { port = y.port }

  -- What the Client is told.
  abbrev pub peer_identification : PeerIdentification
  peer_identification = record { version = c.version; ip = y.ip; port = y.port }

  abbrev dismissed : FakeMediator
  dismissed = record (registered y c m) {
    sent_messages = m.sent_messages ++ (encode (message peer_disconnect).format ∷ []);
  }

  abbrev recorded : FakeMediator
  recorded = record dismissed { completed_disconnects = insert y m.completed_disconnects }

  abbrev claimed : FakeMediator
  claimed = record recorded { completed_disconnects = erase y (insert y m.completed_disconnects) }

  -- The Mediator at the end: it has sent the two messages, in this order.
  abbrev pub met : FakeMediator
  met = record claimed {
    sent_messages =
        (m.sent_messages ++ (encode (message peer_disconnect).format ∷ []))
        ++ (encode (message peer_identification).format ∷ []);
  }

  disconnect-eq : disconnect y c (ok tt) (registered y c m) ≡ (ok (adding_disconnect c), dismissed)
  unfolding disconnect send_and_log ◌>>=◌
  disconnect-eq = refl

  identify-eq :
      identify x a (identifier y c) (ok tt) claimed ≡ (ok (identified a (identifier y c)), met)
  unfolding identify send_and_log ◌>>=◌
  identify-eq = refl

  -- Where a registered Client waits for the Peer that now looks for it, the threads can run until the
  -- Peer is sent the port to listen on, and then the Client the address with that same port.
  pub meet :
      (start_ms wait_ms : ℕ)
      → a.their_key ≡ c.our_key
      → get c.their_key m.key_to_identifier_store ≡ some (identifier x a)
      → get c.our_key m.key_to_identifier_store ≡ none
      → Reaches
          (two m x (awaiting_peer a start_ms wait_ms) y (looking_up c))
          (two met x (identified a (identifier y c)) y (disconnected c))
  unfolding handle_connection advanced register_peer register add_to_disconnects ◌>>=◌
  meet start_ms wait_ms theirs known no_c =
      next
        (next
          (next
            (next
              (next
                (next
                  (next here (
                    handled 1 (scheduled 0) _ (look_up y c) (registering_peer c (identifier x a)) m
                      refl refl refl (look_up-some y c m (identifier x a) known)))
                  (handled 1 (scheduled 0) _ (register_peer y c) (disconnecting c)
                    (registered y c m) refl refl refl refl))
                (handled 1 (sent 0 (ok tt)) _ (disconnect y c (ok tt)) (adding_disconnect c)
                  dismissed refl refl refl disconnect-eq))
              (handled 1 (scheduled 0) _ (add_to_disconnects y c) (disconnected c) recorded refl
                refl refl refl))
            (handled 0 (scheduled 0) _ (wake x a start_ms wait_ms 0)
              (awaiting_disconnect a (identifier y c)) recorded refl refl refl
              (wake-some x a recorded start_ms wait_ms 0 (identifier y c) (
                ap (λ k. get k recorded.key_to_identifier_store) theirs
                ∙ put-new c.our_key _ _ no_c))))
          (handled 0 (scheduled 0) _ (wait_for_disconnect x a (identifier y c))
            (identifying a (identifier y c)) claimed refl refl refl
            (wait-found x a recorded (identifier y c) (contains-insert y m.completed_disconnects))))
        (handled 0 (sent 0 (ok tt)) _ (identify x a (identifier y c) (ok tt))
          (identified a (identifier y c)) met refl refl refl identify-eq)

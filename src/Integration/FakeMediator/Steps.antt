-- ===== src/Integration/FakeMediator/Steps.antt =====
-- What each step of a handler does to what the handlers share.
use p2psc.Prelude.{
  ℕ, ◌+◌, ◌-◌, ◌≡◌, refl, subst, Bool, true, false, Option, none, some, ltb, if◌then◌else◌,
}
use p2psc.Errors.{Result, ok}
use p2psc.Crypto.OpenSsl.{OpenSsl, Base64}
use p2psc.Message.Codec.{JsonLibrary}
use p2psc.Message.Payloads.Mediation.{Advertise}
use p2psc.Net.Objects.{SocketAddress}
use p2psc.Integration.Store.{PeerIdentifier, get}
use p2psc.Integration.Handle.{FakeMediator, Handle, contains, insert, erase, ◌>>=◌}
use p2psc.Integration.FakeMediator.{
  Phase, awaiting_advertise, gave_up, aborting, challenging, awaiting_response, looking_up,
  registering_client, awaiting_peer, awaiting_disconnect, identifying, identified, registering_peer,
  disconnecting, adding_disconnect, disconnected, Input, received, sent, scheduled, on_wake,
  client_or_peer, timeout_ms, look_up, register, register_client, register_peer, wake,
  wait_for_disconnect, add_to_disconnects, handle_connection,
}
use p2psc.Integration.FakeMediator
use p2psc.Integration.FakeMediator.Effects.{
  on_advertise-Leaves, abort-Leaves, challenge-Leaves, on_response-Leaves, disconnect-Leaves,
  identify-Leaves,
}
use p2psc.Integration.FakeMediator.Lookups.{registered}
use p2psc.Integration.FakeMediator.Transitions.{
  plain, told, claimed, recorded, unnamed, carried, looked, entered, Moves, Acts, Acts-leaves,
  Acts-quiet, Acts-total,
}

module _ (address : SocketAddress) (a : Advertise) (m : FakeMediator) where
  look_up-Moves :
      (o : Option PeerIdentifier) → Moves address (looking_up a) (client_or_peer a o) m m
  unfolding client_or_peer
  look_up-Moves none = (plain refl (refl, refl), unnamed refl refl refl)
  look_up-Moves (some p) = (plain refl (refl, refl), unnamed refl refl refl)

  gave_up-Moves :
      (start_ms wait_ms left : ℕ) (b : Bool)
      → Moves address
          (awaiting_peer a start_ms wait_ms)
          (if b then awaiting_peer a start_ms left else gave_up a)
          m
          m
  gave_up-Moves start_ms wait_ms left true = (plain refl (refl, refl), unnamed refl refl refl)
  gave_up-Moves start_ms wait_ms left false = (plain refl (refl, refl), unnamed refl refl refl)

  wake-Moves :
      (start_ms wait_ms left : ℕ) (o : Option PeerIdentifier)
      → get a.their_key m.key_to_identifier_store ≡ o
      → Moves address (awaiting_peer a start_ms wait_ms) (on_wake a start_ms o left) m m
  unfolding on_wake
  wake-Moves start_ms wait_ms left none missing = gave_up-Moves start_ms wait_ms left (ltb 0 left)
  wake-Moves start_ms wait_ms left (some p) known =
      (plain refl (refl, refl), looked a.their_key p refl refl known refl)

  -- The set after a handler has looked for the disconnect.
  after_wait : PeerIdentifier → Bool → FakeMediator
  after_wait p there =
      if there
      then record m { completed_disconnects = erase p.socket_address m.completed_disconnects }
      else m

  wait-Moves :
      (p : PeerIdentifier) (there : Bool)
      → contains p.socket_address m.completed_disconnects ≡ there
      → Moves address
          (awaiting_disconnect a p)
          (if there then identifying a p else awaiting_disconnect a p)
          m
          (after_wait p there)
  unfolding after_wait
  wait-Moves p true there = (claimed p there refl refl refl, carried refl refl refl)
  wait-Moves p false absent = (plain refl (refl, refl), carried refl refl refl)

module _ ⦃j : JsonLibrary⦄ ⦃s : OpenSsl⦄ ⦃b : Base64⦄ (address : SocketAddress)
    (a : Advertise) where
  identify-Acts :
      (p : PeerIdentifier) (status : Result (Unit {0}))
      → Acts address (identifying a p) (FakeMediator.identify address a p status)
  identify-Acts p status =
      Acts-leaves address _ _ (identify-Leaves address a p status)
        λ m m' to same q. (told p same.0 refl q.0 q.1, carried same.1 q.2 q.3)

  look_up-Acts : Acts address (looking_up a) (look_up address a)
  unfolding look_up ◌>>=◌
  look_up-Acts =
      Acts-total address _ _ (λ m. client_or_peer a (get a.their_key m.key_to_identifier_store))
        (λ m. m) (λ m. refl) (λ m. look_up-Moves address a m _)

  wake-Acts :
      (start_ms wait_ms now_ms : ℕ)
      → Acts address (awaiting_peer a start_ms wait_ms) (wake address a start_ms wait_ms now_ms)
  unfolding wake ◌>>=◌
  wake-Acts start_ms wait_ms now_ms =
      Acts-total address _ _
        (λ m.
          on_wake a start_ms (get a.their_key m.key_to_identifier_store)
            ((wait_ms + start_ms) - now_ms))
        (λ m. m) (λ m. refl) (λ m. wake-Moves address a m start_ms wait_ms _ _ refl)

  register_client-Acts :
      (now_ms : ℕ) → Acts address (registering_client a) (register_client address a now_ms)
  unfolding register_client register ◌>>=◌
  register_client-Acts now_ms =
      Acts-total address _ _ (λ m. awaiting_peer a now_ms timeout_ms) (registered address a)
        (λ m. refl) (λ m. (plain refl (refl, refl), entered a refl refl refl refl))

  register_peer-Acts :
      (q : PeerIdentifier) → Acts address (registering_peer a q) (register_peer address a)
  unfolding register_peer register ◌>>=◌
  register_peer-Acts q =
      Acts-total address _ _ (λ m. disconnecting a) (registered address a) (λ m. refl)
        (λ m. (plain refl (refl, refl), entered a refl refl refl refl))

  add_to_disconnects-Acts : Acts address (adding_disconnect a) (add_to_disconnects address a)
  unfolding add_to_disconnects ◌>>=◌
  add_to_disconnects-Acts =
      Acts-total address _ _ (λ m. disconnected a)
        (λ m. record m { completed_disconnects = insert address m.completed_disconnects })
        (λ m. refl) (λ m. (recorded refl refl refl, unnamed refl refl refl))

  wait-eq :
      (p : PeerIdentifier) (m : FakeMediator) (there : Bool)
      → contains p.socket_address m.completed_disconnects ≡ there
      → wait_for_disconnect address a p m ≡ (
        ok (if there then identifying a p else awaiting_disconnect a p),
        after_wait address a m p there,
      )
  unfolding wait_for_disconnect after_wait ◌>>=◌
  wait-eq p m true there = rw there refl
  wait-eq p m false absent = rw absent refl

  wait_for_disconnect-Acts :
      (p : PeerIdentifier)
      → Acts address (awaiting_disconnect a p) (wait_for_disconnect address a p)
  wait_for_disconnect-Acts p =
      Acts-total address _ _
        (λ m.
          if contains p.socket_address m.completed_disconnects
          then identifying a p
          else awaiting_disconnect a p)
        (λ m. after_wait address a m p (contains p.socket_address m.completed_disconnects))
        (λ m. wait-eq p m _ refl) (λ m. wait-Moves address a m p _ refl)

module _ ⦃j : JsonLibrary⦄ ⦃s : OpenSsl⦄ ⦃b : Base64⦄ (address : SocketAddress) where
  -- What `handle_connection` makes of an input.
  abbrev AllActs : Phase → Option (Handle Phase) → Type 0
  AllActs from none = Unit {0}
  AllActs from (some h) = Acts address from h

  handle_connection-AllActs :
      (from : Phase) (input : Input) → AllActs from (handle_connection address from input)
  unfolding handle_connection
  handle_connection-AllActs awaiting_advertise (received status) =
      Acts-quiet address _ _ refl (on_advertise-Leaves address status)
  handle_connection-AllActs (aborting a) (sent pad status) =
      Acts-quiet address _ _ refl (abort-Leaves address a status)
  handle_connection-AllActs (challenging a) (sent pad status) =
      Acts-quiet address _ _ refl (challenge-Leaves address a pad status)
  handle_connection-AllActs (awaiting_response a) (received status) =
      Acts-quiet address _ _ refl (on_response-Leaves address a status)
  handle_connection-AllActs (looking_up a) (scheduled now_ms) = look_up-Acts address a
  handle_connection-AllActs (registering_client a) (scheduled now_ms) =
      register_client-Acts address a now_ms
  handle_connection-AllActs (awaiting_peer a start_ms wait_ms) (scheduled now_ms) =
      wake-Acts address a start_ms wait_ms now_ms
  handle_connection-AllActs (awaiting_disconnect a p) (scheduled now_ms) =
      wait_for_disconnect-Acts address a p
  handle_connection-AllActs (identifying a p) (sent pad status) = identify-Acts address a p status
  handle_connection-AllActs (registering_peer a q) (scheduled now_ms) =
      register_peer-Acts address a q
  handle_connection-AllActs (disconnecting a) (sent pad status) =
      Acts-quiet address _ _ refl (disconnect-Leaves address a status)
  handle_connection-AllActs (adding_disconnect a) (scheduled now_ms) =
      add_to_disconnects-Acts address a
  handle_connection-AllActs _ _ = tt

  pub handle_connection-Acts :
      (from : Phase) (input : Input) (h : Handle Phase)
      → handle_connection address from input ≡ some h
      → Acts address from h
  handle_connection-Acts from input h e =
      subst (λ o. AllActs from o) e (handle_connection-AllActs from input)

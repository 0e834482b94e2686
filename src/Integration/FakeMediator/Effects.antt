-- ===== src/Integration/FakeMediator/Effects.antt =====
-- What a handler does where it changes nothing that the handlers share.
use p2psc.Prelude.{
  ℕ, ◌≡◌, refl, Bool, true, false, Option, none, some, Bytes, if◌then◌else◌, ltb, ◌==◌,
}
use p2psc.Errors.{Result}
use p2psc.Crypto.OpenSsl.{OpenSsl, Base64}
use p2psc.Message.Types.{MessageType}
use p2psc.Message.Codec.{JsonLibrary}
use p2psc.Message.Format.{Payload, Message}
use p2psc.Message.Payloads.Mediation.{Advertise}
use p2psc.Net.Objects.{SocketAddress}
use p2psc.Integration.Store.{PeerIdentifier}
use p2psc.Integration.Handle.{Handle}
use p2psc.Integration.Handle.Leaves.{
  Leaves, Any, Leaves-pure, Leaves-lift, Leaves-state, Leaves-modify, Leaves-bind,
}
use p2psc.Integration.FakeMediator.{
  Phase, aborting, challenging, awaiting_peer, gave_up, awaiting_disconnect, identifying,
  identified, disconnecting, adding_disconnect, disconnected, quit_if_requested, send_and_log,
  receive_and_log, on_advertise, abort, challenge, on_response, identify, disconnect,
}

-- The peer whose disconnect a handler has waited for.
abbrev pub promise : Phase → Option PeerIdentifier
promise (identifying a peer) = some peer
promise (identified a peer) = some peer
promise _ = none

-- The handler has sent a `PeerDisconnect` and has recorded it.
abbrev pub is_disconnected : Phase → Bool
is_disconnected (disconnected a) = true
is_disconnected _ = false

abbrev pub IsPlain : Phase → Type 0
IsPlain phase = (promise phase ≡ none) × (is_disconnected phase ≡ false)

-- The message with which the session has been registered.
abbrev pub registered_as : Phase → Option Advertise
registered_as (awaiting_peer a start_ms wait_ms) = some a
registered_as (gave_up a) = some a
registered_as (awaiting_disconnect a peer) = some a
registered_as (identifying a peer) = some a
registered_as (identified a peer) = some a
registered_as (disconnecting a) = some a
registered_as (adding_disconnect a) = some a
registered_as (disconnected a) = some a
registered_as _ = none

-- The peer that the handler has found, after the key under which it was found.
abbrev pub named : Phase → Option (Bytes × PeerIdentifier)
named (awaiting_disconnect a peer) = some (a.their_key, peer)
named (identifying a peer) = some (a.their_key, peer)
named (identified a peer) = some (a.their_key, peer)
named _ = none

-- A plain phase that names no peer, of a session that has been registered with `o`.
abbrev pub IsQuiet : Option Advertise → Phase → Type 0
IsQuiet o phase = IsPlain phase × (registered_as phase ≡ o) × (named phase ≡ none)

module _ ⦃j : JsonLibrary⦄ where
  send_and_log-Leaves :
      {T : Type 0} ⦃t : Payload T⦄ (status : Result (Unit {0})) (x : Message T)
      → Leaves (send_and_log status x) Any
  unfolding send_and_log
  send_and_log-Leaves status x =
      Leaves-bind Any _ _ (Leaves-lift status) λ u q. Leaves-modify _ (λ m. (refl, refl))

  receive_and_log-Leaves :
      {T : Type 0} ⦃t : Payload T⦄ (status : Result Bytes)
      → Leaves (receive_and_log {T = T} status) Any
  unfolding receive_and_log
  receive_and_log-Leaves status = Leaves-bind Any _ _ (Leaves-lift status) λ raw q.
      Leaves-bind Any _ _ (Leaves-lift _) λ decoded q.
        Leaves-bind Any _ _ (Leaves-modify _ (λ m. (refl, refl))) λ u q. Leaves-pure _ tt

Leaves-if :
    {Q : Phase → Type 0} (b : Bool) (h k : Handle Phase)
    → Leaves h Q
    → Leaves k Q
    → Leaves (if b then h else k) Q
Leaves-if true h k lh lk = lh
Leaves-if false h k lh lk = lk

quit_if_requested-Leaves :
    (type : MessageType) (next : Phase)
    → IsQuiet none next
    → Leaves (quit_if_requested type next) (IsQuiet none)
unfolding quit_if_requested
quit_if_requested-Leaves type next quiet = Leaves-bind Any _ _ Leaves-state λ m q.
    Leaves-if (type == m.quit_after) _ _ (Leaves-pure _ ((refl, refl), refl, refl))
      (Leaves-pure _ quiet)

IsQuiet-if :
    {o : Option Advertise} (b : Bool) (p q : Phase)
    → IsQuiet o p
    → IsQuiet o q
    → IsQuiet o (if b then p else q)
IsQuiet-if true p q hp hq = hp
IsQuiet-if false p q hp hq = hq

module _ ⦃j : JsonLibrary⦄ ⦃s : OpenSsl⦄ ⦃b : Base64⦄ (address : SocketAddress) where
  pub on_advertise-Leaves :
      (status : Result Bytes) → Leaves (on_advertise address status) (IsQuiet none)
  unfolding on_advertise
  on_advertise-Leaves status =
      Leaves-bind Any _ _ (receive_and_log-Leaves ⦃t = _⦄ status) λ advertise q.
        Leaves-bind Any _ _ Leaves-state λ m q. quit_if_requested-Leaves _ _ (
          IsQuiet-if (ltb advertise.format.payload.version m.protocol_version)
            (aborting advertise.format.payload) (challenging advertise.format.payload)
            ((refl, refl), refl, refl) ((refl, refl), refl, refl))

  pub abort-Leaves :
      (a : Advertise) (status : Result (Unit {0})) → Leaves (abort address a status) (IsQuiet none)
  unfolding abort
  abort-Leaves a status = Leaves-bind Any _ _ Leaves-state λ m q.
      Leaves-bind Any _ _ (send_and_log-Leaves ⦃t = _⦄ status _)
        λ u q. quit_if_requested-Leaves _ _ ((refl, refl), refl, refl)

  pub challenge-Leaves :
      (a : Advertise) (pad : ℕ) (status : Result (Unit {0}))
      → Leaves (challenge address a pad status) (IsQuiet none)
  unfolding challenge
  challenge-Leaves a pad status = Leaves-bind Any _ _ (Leaves-lift _) λ key q.
      Leaves-bind Any _ _ (Leaves-lift _) λ nonce q.
        Leaves-bind Any _ _ (send_and_log-Leaves ⦃t = _⦄ status _)
          λ u q. quit_if_requested-Leaves _ _ ((refl, refl), refl, refl)

  pub on_response-Leaves :
      (a : Advertise) (status : Result Bytes) → Leaves (on_response address a status) (IsQuiet none)
  unfolding on_response
  on_response-Leaves a status =
      Leaves-bind Any _ _ (receive_and_log-Leaves ⦃t = _⦄ status)
        λ response q. quit_if_requested-Leaves _ _ ((refl, refl), refl, refl)

  pub disconnect-Leaves :
      (a : Advertise) (status : Result (Unit {0}))
      → Leaves (disconnect address a status) (IsQuiet (some a))
  unfolding disconnect
  disconnect-Leaves a status =
      Leaves-bind Any _ _ (send_and_log-Leaves ⦃t = _⦄ status _)
        λ u q. Leaves-pure _ ((refl, refl), refl, refl)

  pub identify-Leaves :
      (a : Advertise) (peer : PeerIdentifier) (status : Result (Unit {0}))
      → Leaves (identify address a peer status) (λ phase.
        (promise phase ≡ some peer)
        × (is_disconnected phase ≡ false)
        × (registered_as phase ≡ some a)
        × (named phase ≡ some (a.their_key, peer)))
  unfolding identify
  identify-Leaves a peer status =
      Leaves-bind Any _ _ (send_and_log-Leaves ⦃t = _⦄ status _)
        λ u q. Leaves-pure _ (refl, refl, refl, refl)

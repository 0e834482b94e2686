-- ===== src/Connection/Safety.antt =====
-- Assertions and null pointers in a connection attempt.
pub mod Client
pub mod Listener
pub mod Thread
use p2psc.Prelude.{
  codes, subst, if◌then◌else◌, ◌≡◌, refl, sym, ap, ◌∙◌, true, false, none, some, Option, Bool,
  Bool-cases, inl, inr, List,
}
use p2psc.Errors.{Exception, runtime_error, socket_exception}
use p2psc.Crypto.OpenSsl.{OpenSsl, Base64}
use p2psc.Crypto.Key.{Keypair}
use p2psc.Message.Codec.{JsonLibrary}
use p2psc.Message.Payloads.Mediation.{PeerDisconnect}
use p2psc.Net.Objects.{Socket, SocketPtr, Peer, PunchedPeer, Mediator, MediatorConnection}
use p2psc.Net.System.{Os}
use p2psc.Net.Run.Safe.{
  IsGood, Safe, Safe-gets, Safe-fix, Safe-assume, Safe-weaken, Safe-raise, Safe-modify_connection,
}
use p2psc.Net.Run.Safe.Compose.{Safe-bind, Safe-catch, Safe-scoped}
use p2psc.Net.Run.{World, Run, raise, ◌>>=◌}
use p2psc.Net.Socket.{create_socket}
use p2psc.Net.Socket.Safety.{HasObject, IsLasting}
use p2psc.Mediation
use p2psc.Mediation.{has_punched_peer, has_peer_disconnect}
use p2psc.Mediation.Safety.{IsReady, IsDisposable, connect-Safe}
use p2psc.Mediation.Closing.{destroy-Safe, ready-IsDisposable, IsValid-IsLasting}
use p2psc.Connection.{mediator_failure, connect_as_client, connect_as_peer, reach, connect}
use p2psc.Connection.Safety.Client.{IsResult, connect_as_client-Safe}
use p2psc.Connection.Safety.Listener.{connect_as_peer-Safe}

trivial : IsLasting (λ s c. Unit {0})
trivial = record { append = λ s c v h. tt; set_lem = λ s c p v h. tt }

HasObject-IsLasting : (q : SocketPtr) → IsLasting (λ s c. HasObject q s)
HasObject-IsLasting none = record { append = λ s c v h. h; set_lem = λ s c p v h. h }
HasObject-IsLasting (some q) = IsValid-IsLasting (some q)

held :
    {A : Type 0} (x : Option A)
    → (elim x [ none ↦ false | some _ ↦ true ]) ≡ true
    → (a : A) × (x ≡ some a)
held none h = cc
held (some a) h = (a, refl)

known_peer :
    (c : MediatorConnection)
    → has_punched_peer c ≡ true
    → (p : PunchedPeer) × (c.punched_peer ≡ some p)
unfolding has_punched_peer
known_peer c h = held c.punched_peer h

known_disconnect :
    (c : MediatorConnection)
    → has_peer_disconnect c ≡ true
    → (d : PeerDisconnect) × (c.peer_disconnect ≡ some d)
unfolding has_peer_disconnect
known_disconnect c h = held c.peer_disconnect h

module _ ⦃j : JsonLibrary⦄ ⦃s : OpenSsl⦄ ⦃b : Base64⦄ ⦃o : Os⦄ (our_keypair : Keypair)
    (peer : Peer) where
  -- The choice on the object `c₀` that the handshake with the Mediator leaves.
  choice-Safe :
      (s₀ : List Socket) (c₀ : MediatorConnection)
      → IsReady s₀ c₀
      → Safe
          (λ s c. (s ≡ s₀) × (c ≡ c₀))
          (if has_punched_peer c₀
            then connect_as_client our_keypair create_socket
            else if has_peer_disconnect c₀
            then connect_as_peer our_keypair peer create_socket
            else raise (runtime_error (codes "No PunchedPeer or PeerDisconnect")))
          IsResult
          IsDisposable
  choice-Safe s₀ c₀ ready = elim (Bool-cases (has_punched_peer c₀)) [
    | inl punched ↦
        let (p, known) = known_peer c₀ punched in
        rw punched (connect_as_client-Safe our_keypair c₀ s₀ p ready (ready.punched punched) known)
    | inr unknown ↦ elim (Bool-cases (has_peer_disconnect c₀)) [
      | inl gone ↦
          let (d, known) = known_disconnect c₀ gone in
          rw unknown (
            rw gone
              (connect_as_peer-Safe our_keypair peer c₀ s₀ d ready (ready.disconnected gone) known))
      | inr nothing ↦ rw unknown (
          rw nothing (
            Safe-raise _ (λ s c h.
              subst (λ s. IsDisposable s c) (sym h.0)
                (subst (λ c. IsDisposable s₀ c) (sym h.1) (ready-IsDisposable s₀ c₀ ready)))))
    ]
  ]

  reach-Safe : Safe IsReady (reach our_keypair peer create_socket) IsResult IsDisposable
  unfolding reach
  reach-Safe = Safe-fix _ λ s₀ c₀ ready.
      Safe-bind (λ c' s c. (c' ≡ c₀) × (s ≡ s₀) × (c ≡ c₀)) _ _
        (Safe-gets (λ c. c) (λ s c h. (h.1, h.0, h.1)))
        λ c'.
          Safe-assume _ (λ s c h. h.0)
            λ e.
              Safe-weaken _ (λ s c h. (h.1, h.2)) (λ q s c h. h) (λ s c h. h)
                (subst (λ c'. Safe (λ s c. (s ≡ s₀) × (c ≡ c₀)) (chosen c') IsResult IsDisposable)
                  (sym e) (choice-Safe s₀ c₀ ready))
    where
      chosen : MediatorConnection → Run SocketPtr
      chosen c =
          if has_punched_peer c
          then connect_as_client our_keypair create_socket
          else if has_peer_disconnect c
          then connect_as_peer our_keypair peer create_socket
          else raise (runtime_error (codes "No PunchedPeer or PeerDisconnect"))

  mediator_failure-Safe :
      (e : Exception)
      → Safe IsDisposable (mediator_failure our_keypair e) (λ u. IsReady) IsDisposable
  unfolding mediator_failure
  mediator_failure-Safe (socket_exception what) = Safe-raise _ (λ s c h. h)
  mediator_failure-Safe _ = Safe-raise _ (λ s c h. h)

  pub attempt-Safe :
      (mediator : Mediator)
      → Safe
          (λ s c. Unit {0})
          (connect our_keypair peer mediator create_socket)
          (λ q s c. HasObject q s)
          (λ s c. Unit {0})
  unfolding connect
  attempt-Safe mediator =
      Safe-bind (λ u s c. c ≡ Mediation.new mediator) _ _ (Safe-modify_connection _ (λ s c h. refl))
        λ u.
          Safe-scoped IsDisposable IsResult _ _
            (Safe-bind (λ u. IsReady) _ _
              (Safe-catch IsDisposable _ _ (connect-Safe our_keypair peer mediator)
                mediator_failure-Safe)
              λ u. reach-Safe)
            (Safe-weaken _ (λ s c h. (tt, h)) (λ u s c h. h) (λ s c h. h) (destroy-Safe trivial))
            λ q.
              Safe-weaken _ (λ s c h. h) (λ u s c h. h) (λ s c h. tt)
                (destroy-Safe (HasObject-IsLasting q))

  -- Whatever the system, the Mediator and the peer do, an attempt with the library's socket creator
  -- fails no assertion and does not run out of the model's fuel, and it follows a null pointer only
  -- where `accept` has failed. If it returns, it returns a pointer to a socket object.
  pub attempt-IsGood :
      (mediator : Mediator) (w : World)
      → IsGood
          (λ q s c. HasObject q s)
          (λ s c. Unit {0})
          (connect our_keypair peer mediator create_socket w).0
          (connect our_keypair peer mediator create_socket w).1
  attempt-IsGood mediator w = (attempt-Safe mediator).after w tt

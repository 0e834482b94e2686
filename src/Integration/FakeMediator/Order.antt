-- ===== src/Integration/FakeMediator/Order.antt =====
-- The order of the two messages to a Client and to its Peer, in every interleaving of the handlers.
use p2psc.Prelude.{true, ℕ, ◌≡◌, refl, sym, subst, false, none, some, List, get_elem?, set, All}
use p2psc.Crypto.OpenSsl.{OpenSsl, Base64}
use p2psc.Message.Codec.{JsonLibrary}
use p2psc.Message.Types.{MessageType}
use p2psc.Net.Objects.{SocketAddress, Mediator}
use p2psc.Integration.Store.{PeerIdentifier}
use p2psc.Integration.Handle.{FakeMediator, Handle}
use p2psc.Integration.FakeMediator.{
  Phase, new, disconnected, Input, received, sent, scheduled, handle_connection,
}
use p2psc.Integration.FakeMediator.System.{
  Session, System, Step, Reaches, started, stopped, requested, request_quit, entered, skip_session,
  skipped, accepted, handled, failed, here, next, advanced, fresh,
}
use p2psc.Integration.FakeMediator.Effects.{promise, is_disconnected}
use p2psc.Integration.FakeMediator.Transitions.{Effect, plain, told, claimed, recorded}
use p2psc.Integration.FakeMediator.Steps.{handle_connection-Acts}
use p2psc.Integration.FakeMediator.Sets.{
  HasDisconnected, All-contains, All-erase, All-insert, All-map, All-set, All-get,
  set-HasDisconnected, here-HasDisconnected,
}
use p2psc.Integration.FakeMediator.Ordered.{
  Kept, IsOrdered, map-Kept, run-SameShared, stop-SameShared, enter_accept-eq, same-IsOrdered,
  accepting-IsOrdered, accept_session-IsOrdered,
}

module _ ⦃j : JsonLibrary⦄ ⦃ssl : OpenSsl⦄ ⦃b : Base64⦄ where
  -- A handler that has disconnected has returned.
  live :
      (address : SocketAddress) (phase : Phase) (input : Input) (h : Handle Phase)
      → handle_connection address phase input ≡ some h
      → is_disconnected phase ≡ false
  unfolding handle_connection
  live address (disconnected a) (received r) h e = cc
  live address (disconnected a) (sent pad r) h e = cc
  live address (disconnected a) (scheduled n) h e = cc
  live address _ input h e = refl

  module _ (s : System) (i : ℕ) (session : Session) (to : Phase) (m : FakeMediator)
      (at : get_elem? s.sessions i ≡ some session) (live : is_disconnected session.phase ≡ false)
      (ordered : IsOrdered s) where
    abbrev moved : List Session
    moved = set s.sessions i (record session { phase = to })

    still : (x : SocketAddress) → HasDisconnected x s.sessions → HasDisconnected x moved
    still x = set-HasDisconnected x s.sessions i session _ at live

    old_completed : All (λ x. HasDisconnected x moved) s.mediator.completed_disconnects
    old_completed = All-map s.mediator.completed_disconnects still ordered.completed

    all_kept : Kept (promise to) moved → All (λ session. Kept (promise session.phase) moved) moved
    all_kept h =
        All-set _ s.sessions i _
          (All-map s.sessions (λ x. map-Kept (promise x.phase) s.sessions moved still) ordered.kept)
          h

    nothing_kept : promise to ≡ none → Kept (promise to) moved
    nothing_kept e = subst (λ o. Kept o moved) (sym e) tt

    moved_completed :
        Effect session.address session.phase to s.mediator.completed_disconnects
          m.completed_disconnects
        → All (λ x. HasDisconnected x moved) m.completed_disconnects
    moved_completed (plain same h) =
        subst (λ set. All (λ x. HasDisconnected x moved) set) (sym same) old_completed
    moved_completed (told p same before after gone) =
        subst (λ set. All (λ x. HasDisconnected x moved) set) (sym same) old_completed
    moved_completed (claimed p there erased after gone) =
        subst (λ set. All (λ x. HasDisconnected x moved) set) (sym erased)
          (All-erase _ p.socket_address s.mediator.completed_disconnects old_completed)
    moved_completed (recorded inserted after gone) =
        subst (λ set. All (λ x. HasDisconnected x moved) set) (sym inserted)
          (All-insert _ session.address s.mediator.completed_disconnects
            (here-HasDisconnected s.sessions i session (record session { phase = to }) at gone)
            old_completed)

    moved_kept :
        Effect session.address session.phase to s.mediator.completed_disconnects
          m.completed_disconnects
        → Kept (promise to) moved
    moved_kept (plain same h) = nothing_kept h.0
    moved_kept (told p same before after gone) =
        let known = All-get _ s.sessions i session ordered.kept at in
        let peer = subst (λ o. Kept o s.sessions) before known in
        subst (λ o. Kept o moved) (sym after) (still p.socket_address peer)
    moved_kept (claimed p there erased after gone) =
        let peer =
          All-contains (λ x. HasDisconnected x moved) p.socket_address
            s.mediator.completed_disconnects old_completed there in
        subst (λ o. Kept o moved) (sym after) peer
    moved_kept (recorded inserted after gone) = nothing_kept after

    advanced-IsOrdered :
        Effect session.address session.phase to s.mediator.completed_disconnects
          m.completed_disconnects
        → IsOrdered (advanced i session to m s)
    unfolding advanced
    advanced-IsOrdered effect = record {
      completed = moved_completed effect;
      kept = all_kept (moved_kept effect);
    }

  Step-IsOrdered : {s t : System} → Step s t → IsOrdered s → IsOrdered t
  unfolding request_quit skip_session
  Step-IsOrdered {s} (started m e) h =
      same-IsOrdered s m s.terminated (run-SameShared s.mediator m e).0 h
  Step-IsOrdered {s} (stopped m e) h =
      same-IsOrdered s m s.terminated (stop-SameShared s.mediator m e).0 h
  Step-IsOrdered {s} (requested type) h =
      same-IsOrdered s (request_quit type s.mediator) s.terminated refl h
  Step-IsOrdered {s} (entered t idle e) h =
      subst IsOrdered (enter_accept-eq s t e) (accepting-IsOrdered true s h)
  Step-IsOrdered {s} (accepted address accepting) h = accept_session-IsOrdered address s h
  Step-IsOrdered {s} (skipped accepting) h = accepting-IsOrdered false s h
  Step-IsOrdered {s} (handled i input session k phase m alive at known e) h =
      advanced-IsOrdered s i session phase m at (live _ _ input k known) h
        ((handle_connection-Acts _ _ input k known).acts s.mediator m phase e).0
  Step-IsOrdered {s} (failed i input session k x m alive at known e) h =
      same-IsOrdered s m (some x)
        ((handle_connection-Acts _ _ input k known).throws s.mediator m x e).0 h

  Reaches-IsOrdered : {s t : System} → Reaches s t → IsOrdered s → IsOrdered t
  Reaches-IsOrdered here h = h
  Reaches-IsOrdered (next r step) h = Step-IsOrdered step (Reaches-IsOrdered r h)

  -- In every order in which the threads of a new Mediator may run: where a handler is about to send
  -- its client a `PeerIdentification`, or has sent it, a session of the address in that message has
  -- sent its `PeerDisconnect` and has recorded it.
  pub promise-HasDisconnected :
      (mediator : Mediator) (quit_after : MessageType) {t : System}
      → Reaches (fresh mediator quit_after) t
      → (i : ℕ) (session : Session) (p : PeerIdentifier) → get_elem? t.sessions i ≡ some session
      → promise session.phase ≡ some p
      → HasDisconnected p.socket_address t.sessions
  unfolding fresh new
  promise-HasDisconnected mediator quit_after {t} r i session p at known =
      let ordered = Reaches-IsOrdered r (record { completed = tt; kept = tt }) in
      subst (λ o. Kept o t.sessions) known (All-get _ t.sessions i session ordered.kept at)

-- ===== src/Integration/FakeMediator/Asked.antt =====
-- Which peer a Client is told of, in every interleaving of the handlers.
use p2psc.Prelude.{true, false, ℕ, ◌≡◌, refl, subst, some, get_elem?, Bytes}
use p2psc.Crypto.OpenSsl.{OpenSsl, Base64}
use p2psc.Message.Codec.{JsonLibrary}
use p2psc.Message.Types.{MessageType}
use p2psc.Net.Objects.{Mediator}
use p2psc.Integration.Store.{PeerIdentifier}
use p2psc.Integration.FakeMediator.{new}
use p2psc.Integration.FakeMediator.System.{
  Session, System, Step, Reaches, started, stopped, requested, request_quit, entered, skip_session,
  skipped, accepted, handled, failed, here, next, fresh,
}
use p2psc.Integration.FakeMediator.Effects.{named}
use p2psc.Integration.FakeMediator.Sets.{All-get}
use p2psc.Integration.FakeMediator.Ordered.{run-SameShared, stop-SameShared, enter_accept-eq}
use p2psc.Integration.FakeMediator.Steps.{handle_connection-Acts}
use p2psc.Integration.FakeMediator.Provenance.{
  HasRegistered, Backed, IsBacked, same-IsBacked, accepting-IsBacked, accept_session-IsBacked,
  advanced-IsBacked,
}

module _ ⦃j : JsonLibrary⦄ ⦃ssl : OpenSsl⦄ ⦃b : Base64⦄ where
  Step-IsBacked : {s t : System} → Step s t → IsBacked s → IsBacked t
  unfolding request_quit skip_session
  Step-IsBacked {s} (started m e) h =
      same-IsBacked s m s.terminated (run-SameShared s.mediator m e).1 h
  Step-IsBacked {s} (stopped m e) h =
      same-IsBacked s m s.terminated (stop-SameShared s.mediator m e).1 h
  Step-IsBacked {s} (requested type) h =
      same-IsBacked s (request_quit type s.mediator) s.terminated refl h
  Step-IsBacked {s} (entered t idle e) h =
      subst IsBacked (enter_accept-eq s t e) (accepting-IsBacked true s h)
  Step-IsBacked {s} (accepted address accepting) h = accept_session-IsBacked address s h
  Step-IsBacked {s} (skipped accepting) h = accepting-IsBacked false s h
  Step-IsBacked {s} (handled i input session k phase m alive at known e) h =
      advanced-IsBacked s i session phase m at h
        ((handle_connection-Acts _ _ input k known).acts s.mediator m phase e).1
  Step-IsBacked {s} (failed i input session k x m alive at known e) h =
      same-IsBacked s m (some x)
        ((handle_connection-Acts _ _ input k known).throws s.mediator m x e).1 h

  Reaches-IsBacked : {s t : System} → Reaches s t → IsBacked s → IsBacked t
  Reaches-IsBacked here h = h
  Reaches-IsBacked (next r step) h = Step-IsBacked step (Reaches-IsBacked r h)

  -- In every order in which the threads of a new Mediator may run: the peer that a handler has found
  -- for its client, and of which it tells the client, is a session that has registered the key for
  -- which the client asked, and the address and the version are those of that session.
  pub named-HasRegistered :
      (mediator : Mediator) (quit_after : MessageType) {t : System}
      → Reaches (fresh mediator quit_after) t
      → (i : ℕ) (session : Session) (key : Bytes) (p : PeerIdentifier)
      → get_elem? t.sessions i ≡ some session
      → named session.phase ≡ some (key, p)
      → HasRegistered key p t.sessions
  unfolding fresh new
  named-HasRegistered mediator quit_after {t} r i session key p at known =
      let backed = Reaches-IsBacked r (record { stored = tt; found = tt }) in
      subst (λ o. Backed o t.sessions) known (All-get _ t.sessions i session backed.found at)

-- ===== src/Integration/FakeMediator/Provenance.antt =====
-- Where the entries of the store, and the peers that the handlers find, come from.
use p2psc.Prelude.{
  Bool, ℕ, zero, suc, ◌≡◌, refl, sym, ◌∙◌, subst, inl, inr, ◌⊎◌, Option, none, some, List, [], ◌∷◌,
  ◌++◌, get_elem?, set, All, Bytes, arith,
}
use p2psc.Errors.{Exception}
use p2psc.Message.Payloads.Mediation.{Advertise}
use p2psc.Net.Objects.{SocketAddress}
use p2psc.Integration.Store.{PeerIdentifier, Store, put}
use p2psc.Integration.Store.Entries.{Entries, Entries-get, Entries-put}
use p2psc.Integration.Handle.{FakeMediator}
use p2psc.Integration.FakeMediator.{Phase, awaiting_advertise}
use p2psc.Integration.FakeMediator.System.{Session, System, advanced, accept_session}
use p2psc.Integration.FakeMediator.Effects.{registered_as, named}
use p2psc.Integration.FakeMediator.Lookups.{identifier}
use p2psc.Integration.FakeMediator.Sets.{All-map, All-append, All-set, All-get}
use p2psc.Integration.FakeMediator.Transitions.{Entry, unnamed, carried, looked, entered}

module _ (P : Session → Type 0) where
  -- `P` holds of one of the sessions.
  abbrev pub Somewhere : List Session → Type 0
  Somewhere [] = ⊥
  Somewhere (session ∷ sessions) = P session ⊎ Somewhere sessions

  pub append-Somewhere :
      (sessions : List Session) (new : Session)
      → Somewhere sessions
      → Somewhere (sessions ++ (new ∷ []))
  append-Somewhere [] new h = absurd h
  append-Somewhere (session ∷ sessions) new (inl h) = inl h
  append-Somewhere (session ∷ sessions) new (inr h) = inr (append-Somewhere sessions new h)

  -- A session may go on if `P` goes with it.
  pub set-Somewhere :
      (sessions : List Session) (i : ℕ) (old new : Session)
      → get_elem? sessions i ≡ some old
      → (P old → P new)
      → Somewhere sessions
      → Somewhere (set sessions i new)
  set-Somewhere [] i old new at goes h = absurd h
  set-Somewhere (session ∷ sessions) zero old new at goes (inl h) =
      let same : session ≡ old = ground (arith, at) in inl (goes (subst P same h))
  set-Somewhere (session ∷ sessions) zero old new at goes (inr h) = inr h
  set-Somewhere (session ∷ sessions) (suc i) old new at goes (inl h) = inl h
  set-Somewhere (session ∷ sessions) (suc i) old new at goes (inr h) =
      inr (set-Somewhere sessions i old new at goes h)

  pub here-Somewhere :
      (sessions : List Session) (i : ℕ) (old new : Session)
      → get_elem? sessions i ≡ some old
      → P new
      → Somewhere (set sessions i new)
  here-Somewhere [] i old new at h = cc
  here-Somewhere (session ∷ sessions) zero old new at h = inl h
  here-Somewhere (session ∷ sessions) (suc i) old new at h =
      inr (here-Somewhere sessions i old new at h)

-- The session has advertised this key, from this address and with this version.
abbrev pub Registers : Bytes → PeerIdentifier → Session → Type 0
Registers key p session =
    (a : Advertise) × (registered_as session.phase ≡ some a)
    × (a.our_key ≡ key)
    × (identifier session.address a ≡ p)

abbrev pub HasRegistered : Bytes → PeerIdentifier → List Session → Type 0
HasRegistered key p = Somewhere (Registers key p)

-- A peer that a handler has found has registered.
abbrev pub Backed : Option (Bytes × PeerIdentifier) → List Session → Type 0
Backed none sessions = Unit {0}
Backed (some x) sessions = HasRegistered x.0 x.1 sessions

map-Backed :
    (o : Option (Bytes × PeerIdentifier)) (sessions sessions' : List Session)
    → ((key : Bytes) (p : PeerIdentifier)
        → HasRegistered key p sessions
        → HasRegistered key p sessions')
    → Backed o sessions
    → Backed o sessions'
map-Backed none sessions sessions' f h = tt
map-Backed (some x) sessions sessions' f h = f x.0 x.1 h

-- Every entry of the store is of a session that has registered it, and so is every peer that a
-- handler has found.
pub record IsBacked (s : System) : Type 0 where
  pub stored : Entries (λ key p. HasRegistered key p s.sessions) s.mediator.key_to_identifier_store
  pub found : All (λ session. Backed (named session.phase) s.sessions) s.sessions

pub same-IsBacked :
    (s : System) (m : FakeMediator) (e : Option Exception)
    → m.key_to_identifier_store ≡ s.mediator.key_to_identifier_store
    → IsBacked s
    → IsBacked (record s { mediator = m; terminated = e })
same-IsBacked s m e same h = record {
  stored =
      subst (λ store. Entries (λ key p. HasRegistered key p s.sessions) store) (sym same) h.stored;
  found = h.found;
}

pub accepting-IsBacked :
    (b : Bool) (s : System) → IsBacked s → IsBacked (record s { accepting = b })
accepting-IsBacked b s h = record { stored = h.stored; found = h.found }

pub accept_session-IsBacked :
    (address : SocketAddress) (s : System) → IsBacked s → IsBacked (accept_session address s)
unfolding accept_session
accept_session-IsBacked address s h =
    let fresh : Session = record { address = address; phase = awaiting_advertise } in
    let more : (key : Bytes) (p : PeerIdentifier)
        → HasRegistered key p s.sessions
        → HasRegistered key p (s.sessions ++ (fresh ∷ [])) =
      λ key p. append-Somewhere (Registers key p) s.sessions fresh in
    record {
      stored = All-map s.mediator.key_to_identifier_store (λ entry. more entry.0 entry.1) h.stored;
      found =
          All-append _ s.sessions fresh
            (All-map s.sessions (λ session. map-Backed (named session.phase) s.sessions _ more)
              h.found)
            tt;
    }

module _ (s : System) (i : ℕ) (session : Session) (to : Phase) (m : FakeMediator)
    (at : get_elem? s.sessions i ≡ some session) (backed : IsBacked s)
    (entry : Entry session.address session.phase to s.mediator.key_to_identifier_store
      m.key_to_identifier_store) where
  abbrev moved : List Session
  moved = set s.sessions i (record session { phase = to })

  -- What has been registered stays registered.
  stays :
      {store store' : Store} (a : Advertise)
      → Entry session.address session.phase to store store'
      → registered_as session.phase ≡ some a
      → registered_as to ≡ some a
  stays a (unnamed same kept gone) h = kept ∙ h
  stays a (carried same kept on) h = kept ∙ h
  stays a (looked key p same kept known on) h = kept ∙ h
  stays a (entered b put before after gone) h = cc

  still :
      (key : Bytes) (p : PeerIdentifier)
      → HasRegistered key p s.sessions
      → HasRegistered key p moved
  still key p =
      set-Somewhere (Registers key p) s.sessions i session _ at
        λ r. (r.0, stays r.0 entry r.1, r.2, r.3)

  old_stored : Entries (λ key p. HasRegistered key p moved) s.mediator.key_to_identifier_store
  old_stored = All-map s.mediator.key_to_identifier_store (λ e. still e.0 e.1) backed.stored

  moved_stored :
      {store' : Store}
      → Entry session.address session.phase to s.mediator.key_to_identifier_store store'
      → Entries (λ key p. HasRegistered key p moved) store'
  moved_stored (unnamed same kept gone) =
      subst (λ x. Entries (λ key p. HasRegistered key p moved) x) (sym same) old_stored
  moved_stored (carried same kept on) =
      subst (λ x. Entries (λ key p. HasRegistered key p moved) x) (sym same) old_stored
  moved_stored (looked key p same kept known on) =
      subst (λ x. Entries (λ key p. HasRegistered key p moved) x) (sym same) old_stored
  moved_stored (entered a putted before after gone) =
      subst (λ x. Entries (λ key p. HasRegistered key p moved) x) (sym putted)
        (Entries-put _ a.our_key (identifier session.address a) s.mediator.key_to_identifier_store
          (here-Somewhere _ s.sessions i session (record session { phase = to }) at
            (a, after, refl, refl))
          old_stored)

  moved_found :
      {store' : Store}
      → Entry session.address session.phase to s.mediator.key_to_identifier_store store'
      → Backed (named to) moved
  moved_found (unnamed same kept gone) = subst (λ o. Backed o moved) (sym gone) tt
  moved_found (carried same kept on) =
      subst (λ o. Backed o moved) (sym on)
        (map-Backed (named session.phase) s.sessions moved still
          (All-get _ s.sessions i session backed.found at))
  moved_found (looked key p same kept known on) =
      subst (λ o. Backed o moved) (sym on)
        (Entries-get _ key p s.mediator.key_to_identifier_store old_stored known)
  moved_found (entered a putted before after gone) = subst (λ o. Backed o moved) (sym gone) tt

  pub advanced-IsBacked : IsBacked (advanced i session to m s)
  unfolding advanced
  advanced-IsBacked = record {
    stored = moved_stored entry;
    found =
        All-set _ s.sessions i _
          (All-map s.sessions (λ x. map-Backed (named x.phase) s.sessions moved still) backed.found)
          (moved_found entry);
  }

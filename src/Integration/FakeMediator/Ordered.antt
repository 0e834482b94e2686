-- ===== src/Integration/FakeMediator/Ordered.antt =====
-- The order of the two messages as a statement about the system, and the steps of the Mediator itself.
use p2psc.Prelude.{
  Bool, ◌≡◌, refl, sym, ap, ◌∙◌, subst, true, false, Bool-cases, inl, inr, Option, none, some, List,
  [], ◌∷◌, ◌++◌, All, if◌then◌else◌,
}
use p2psc.Errors.{Exception}
use p2psc.Net.Objects.{SocketAddress}
use p2psc.Integration.Store.{PeerIdentifier}
use p2psc.Integration.Handle.{FakeMediator}
use p2psc.Integration.Handle.Leaves.{SameShared}
use p2psc.Integration.FakeMediator.{awaiting_advertise}
use p2psc.Integration.FakeMediator.System.{Session, System, run, stop, enter_accept, accept_session}
use p2psc.Integration.FakeMediator.Effects.{promise}
use p2psc.Integration.FakeMediator.Sets.{
  HasDisconnected, All-map, All-append, append-HasDisconnected,
}

-- The peer that a handler has waited for has disconnected.
abbrev pub Kept : Option PeerIdentifier → List Session → Type 0
Kept none sessions = Unit {0}
Kept (some p) sessions = HasDisconnected p.socket_address sessions

pub map-Kept :
    (o : Option PeerIdentifier) (sessions sessions' : List Session)
    → ((x : SocketAddress) → HasDisconnected x sessions → HasDisconnected x sessions')
    → Kept o sessions
    → Kept o sessions'
map-Kept none sessions sessions' f h = tt
map-Kept (some p) sessions sessions' f h = f p.socket_address h

-- The addresses in the set are of sessions that have disconnected, and so are those of the peers that
-- the handlers have waited for.
pub record IsOrdered (s : System) : Type 0 where
  pub completed : All (λ x. HasDisconnected x s.sessions) s.mediator.completed_disconnects
  pub kept : All (λ session. Kept (promise session.phase) s.sessions) s.sessions

run-eq : (m m' : FakeMediator) → run m ≡ some m' → record m { is_running = true } ≡ m'
unfolding run
run-eq m m' e = elim (Bool-cases m.is_running) [
  | inl running ↦
      let no : none ≡ some m' =
        sym (ap (λ b. if b then none else some (record m { is_running = true })) running) ∙ e in
      cc
  | inr idle ↦
      let yes : some (record m { is_running = true }) ≡ some m' =
        sym (ap (λ b. if b then none else some (record m { is_running = true })) idle) ∙ e in
      cc
]

stop-eq : (m m' : FakeMediator) → stop m ≡ some m' → record m { is_running = false } ≡ m'
unfolding stop
stop-eq m m' e = elim (Bool-cases m.is_running) [
  | inl running ↦
      let yes : some (record m { is_running = false }) ≡ some m' =
        sym (ap (λ b. if b then some (record m { is_running = false }) else none) running) ∙ e in
      cc
  | inr idle ↦
      let no : none ≡ some m' =
        sym (ap (λ b. if b then some (record m { is_running = false }) else none) idle) ∙ e in
      cc
]

-- A worker that enters `accept` changes nothing else.
pub enter_accept-eq : (s t : System) → enter_accept s ≡ some t → record s { accepting = true } ≡ t
unfolding enter_accept
enter_accept-eq s t e = elim (Bool-cases s.mediator.is_running) [
  | inl running ↦
      let yes : some (record s { accepting = true }) ≡ some t =
        sym (ap (λ b. if b then some (record s { accepting = true }) else none) running) ∙ e in
      cc
  | inr idle ↦
      let no : none ≡ some t =
        sym (ap (λ b. if b then some (record s { accepting = true }) else none) idle) ∙ e in
      cc
]

pub run-SameShared : (m m' : FakeMediator) → run m ≡ some m' → SameShared m m'
run-SameShared m m' e = subst (λ x. SameShared m x) (run-eq m m' e) (refl, refl)

pub stop-SameShared : (m m' : FakeMediator) → stop m ≡ some m' → SameShared m m'
stop-SameShared m m' e = subst (λ x. SameShared m x) (stop-eq m m' e) (refl, refl)

-- A change that leaves the set and the sessions as they are.
pub same-IsOrdered :
    (s : System) (m : FakeMediator) (e : Option Exception)
    → m.completed_disconnects ≡ s.mediator.completed_disconnects
    → IsOrdered s
    → IsOrdered (record s { mediator = m; terminated = e })
same-IsOrdered s m e same h = record {
  completed = subst (λ set. All (λ x. HasDisconnected x s.sessions) set) (sym same) h.completed;
  kept = h.kept;
}

pub accepting-IsOrdered :
    (b : Bool) (s : System) → IsOrdered s → IsOrdered (record s { accepting = b })
accepting-IsOrdered b s h = record { completed = h.completed; kept = h.kept }

pub accept_session-IsOrdered :
    (address : SocketAddress) (s : System) → IsOrdered s → IsOrdered (accept_session address s)
unfolding accept_session
accept_session-IsOrdered address s h =
    let fresh : Session = record { address = address; phase = awaiting_advertise } in
    let more : (x : SocketAddress)
        → HasDisconnected x s.sessions
        → HasDisconnected x (s.sessions ++ (fresh ∷ [])) =
      λ x. append-HasDisconnected x s.sessions fresh in
    record {
      completed = All-map s.mediator.completed_disconnects more h.completed;
      kept =
          All-append _ s.sessions fresh
            (All-map s.sessions (λ session. map-Kept (promise session.phase) s.sessions _ more)
              h.kept)
            tt;
    }

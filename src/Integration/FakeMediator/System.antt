-- ===== src/Integration/FakeMediator/System.antt =====
-- The threads of `FakeMediator`: its handlers run in any order, each on its own session.
use p2psc.Prelude.{
  ℕ, Bool, ◌≡◌, true, false, Option, none, some, List, Bytes, [], ◌∷◌, ◌++◌, get_elem?, set,
  if◌then◌else◌,
}
use p2psc.Errors.{Exception, ok, throw}
use p2psc.Crypto.OpenSsl.{OpenSsl, Base64}
use p2psc.Message.Codec.{JsonLibrary}
use p2psc.Net.Objects.{SocketAddress, Mediator}
use p2psc.Message.Types.{MessageType}
use p2psc.Integration.Handle.{FakeMediator, Handle}
use p2psc.Integration.FakeMediator.{Phase, new, awaiting_advertise, Input, handle_connection}

pub record Session : Type 0 where
  pub address : SocketAddress
  pub phase : Phase

-- `accepting` says that the worker thread has found `_is_running` set and is inside `accept`.
-- `terminated` has the exception that has left a thread's function, which ends the program.
pub record System : Type 0 where
  pub mediator : FakeMediator
  pub sessions : List Session
  pub accepting : Bool
  pub terminated : Option Exception

-- A Mediator that has just been constructed.
unfoldable pub fresh : Mediator → MessageType → System
fresh mediator quit_after = record {
  mediator = new mediator quit_after;
  sessions = [];
  accepting = false;
  terminated = none;
}

-- `run`, and `none` for its failed assertion.
unfoldable pub run : FakeMediator → Option FakeMediator
run m = if m.is_running then none else some (record m { is_running = true })

-- `stop`. It waits for the threads, and leaves what they share as it is.
unfoldable pub stop : FakeMediator → Option FakeMediator
stop m = if m.is_running then some (record m { is_running = false }) else none

-- The destructor.
unfoldable pub destroy : FakeMediator → Option FakeMediator
unfolding stop
destroy m = if m.is_running then stop m else some m

-- `quit_after`.
unfoldable pub request_quit : MessageType → FakeMediator → FakeMediator
request_quit message_type m = record m { quit_after = message_type }

unfoldable pub get_mediator_description : FakeMediator → Mediator
get_mediator_description m = m.mediator

unfoldable pub get_received_messages : FakeMediator → List Bytes
get_received_messages m = m.received_messages

unfoldable pub get_sent_messages : FakeMediator → List Bytes
get_sent_messages m = m.sent_messages

-- The test of the loop of `_run`.
unfoldable pub enter_accept : System → Option System
enter_accept s = if s.mediator.is_running then some (record s { accepting = true }) else none

-- The rest of a turn of that loop, where `accept` returns a socket. The loop may have been told to
-- stop in the meantime.
unfoldable pub accept_session : SocketAddress → System → System
accept_session address s = record s {
  sessions = s.sessions ++ (record { address = address; phase = awaiting_advertise } ∷ []);
  accepting = false;
}

-- The same where `accept` returns a null pointer.
unfoldable pub skip_session : System → System
skip_session s = record s { accepting = false }

-- The session at `i` has come to a phase.
unfoldable pub advanced : ℕ → Session → Phase → FakeMediator → System → System
advanced i session phase m s = record s {
  mediator = m;
  sessions = set s.sessions i (record session { phase = phase });
}

module _ ⦃j : JsonLibrary⦄ ⦃ssl : OpenSsl⦄ ⦃b : Base64⦄ where
  pub data Step (s : System) : System → Type 0 where
    started : (m : FakeMediator) → run s.mediator ≡ some m → Step s (record s { mediator = m })
    stopped : (m : FakeMediator) → stop s.mediator ≡ some m → Step s (record s { mediator = m })
    requested : (type : MessageType) → Step s (record s { mediator = request_quit type s.mediator })
    entered : (t : System) → s.accepting ≡ false → enter_accept s ≡ some t → Step s t
    accepted : (address : SocketAddress) → s.accepting ≡ true → Step s (accept_session address s)
    skipped : s.accepting ≡ true → Step s (skip_session s)
    handled :
        (i : ℕ) (input : Input) (session : Session) (h : Handle Phase) (phase : Phase)
        (m : FakeMediator)
        → s.terminated ≡ none
        → get_elem? s.sessions i ≡ some session
        → handle_connection session.address session.phase input ≡ some h
        → h s.mediator ≡ (ok phase, m)
        → Step s (advanced i session phase m s)
    failed :
        (i : ℕ) (input : Input) (session : Session) (h : Handle Phase) (e : Exception)
        (m : FakeMediator)
        → s.terminated ≡ none
        → get_elem? s.sessions i ≡ some session
        → handle_connection session.address session.phase input ≡ some h
        → h s.mediator ≡ (throw e, m)
        → Step s (record s { mediator = m; terminated = some e })

  pub data Reaches (s : System) : System → Type 0 where
    here : Reaches s s
    next : {t u : System} → Reaches s t → Step t u → Reaches s u

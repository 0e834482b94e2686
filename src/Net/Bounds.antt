-- ===== src/Net/Bounds.antt =====
-- Effects that hand no message to the system.
use p2psc.Prelude.{ℕ, refl}
use p2psc.Net.Objects.{SocketAddress, Fd}
use p2psc.Net.System.{opened, connected, closed, bound, listened, accepted, slept}
use p2psc.Net.Run.{act}
use p2psc.Net.Run.Bounded.{Bounded, Bounded-act, bounded_rules}

pub opened-Bounded : (fd : ℕ) → Bounded 0 (act (opened fd))
opened-Bounded fd = Bounded-act _ (λ t. refl)

pub connected-Bounded : (fd : Fd) (a : SocketAddress) → Bounded 0 (act (connected fd a))
connected-Bounded fd a = Bounded-act _ (λ t. refl)

pub closed-Bounded : (fd : Fd) → Bounded 0 (act (closed fd))
closed-Bounded fd = Bounded-act _ (λ t. refl)

pub bound-Bounded : (fd : Fd) (port : ℕ) → Bounded 0 (act (bound fd port))
bound-Bounded fd port = Bounded-act _ (λ t. refl)

pub listened-Bounded : (fd : Fd) → Bounded 0 (act (listened fd))
listened-Bounded fd = Bounded-act _ (λ t. refl)

pub accepted-Bounded : (fd : Fd) (s : ℕ) → Bounded 0 (act (accepted fd s))
accepted-Bounded fd s = Bounded-act _ (λ t. refl)

pub slept-Bounded : (ms : ℕ) → Bounded 0 (act (slept ms))
slept-Bounded ms = Bounded-act _ (λ t. refl)

pub ruleset quiet = (
  bounded_rules, opened-Bounded, connected-Bounded, closed-Bounded, bound-Bounded, listened-Bounded,
  accepted-Bounded, slept-Bounded,
)

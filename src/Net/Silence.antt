-- ===== src/Net/Silence.antt =====
-- Properties of the trace that every effect keeps except a call of the user's function.
use p2psc.Prelude.{ℕ, Option, ◌∷◌, Bytes}
use p2psc.Net.Objects.{SocketAddress, Fd}
use p2psc.Net.System.{
  Action, Trace, opened, connected, sent, received, closed, bound, listened, accepted, slept,
  called_back,
}
use p2psc.Net.Run.{act}
use p2psc.Net.Run.Stable.{Stable, Stable-act, stable_rules}

abbrev pub IsSilent : Action → Type 0
IsSilent (called_back e s) = ⊥
IsSilent _ = Unit {0}

pub record Ignores (P : Trace → Type 0) : Type 0 where
  pub silent : (a : Action) → IsSilent a → (t : Trace) → P t → P (a ∷ t)

module _ {P : Trace → Type 0} ⦃i : Ignores P⦄ where
  pub opened-Stable : (fd : ℕ) → Stable P (act (opened fd))
  opened-Stable fd = Stable-act _ (i.silent (opened fd) tt)

  pub connected-Stable : (fd : Fd) (a : SocketAddress) → Stable P (act (connected fd a))
  connected-Stable fd a = Stable-act _ (i.silent (connected fd a) tt)

  pub sent-Stable : (fd : Fd) (m : Bytes) (n : Option ℕ) → Stable P (act (sent fd m n))
  sent-Stable fd m n = Stable-act _ (i.silent (sent fd m n) tt)

  pub received-Stable : (fd : Fd) (m : Bytes) → Stable P (act (received fd m))
  received-Stable fd m = Stable-act _ (i.silent (received fd m) tt)

  pub closed-Stable : (fd : Fd) → Stable P (act (closed fd))
  closed-Stable fd = Stable-act _ (i.silent (closed fd) tt)

  pub bound-Stable : (fd : Fd) (port : ℕ) → Stable P (act (bound fd port))
  bound-Stable fd port = Stable-act _ (i.silent (bound fd port) tt)

  pub listened-Stable : (fd : Fd) → Stable P (act (listened fd))
  listened-Stable fd = Stable-act _ (i.silent (listened fd) tt)

  pub accepted-Stable : (fd : Fd) (s : ℕ) → Stable P (act (accepted fd s))
  accepted-Stable fd s = Stable-act _ (i.silent (accepted fd s) tt)

  pub slept-Stable : (ms : ℕ) → Stable P (act (slept ms))
  slept-Stable ms = Stable-act _ (i.silent (slept ms) tt)

pub ruleset effects = (
  stable_rules, opened-Stable, connected-Stable, sent-Stable, received-Stable, closed-Stable,
  bound-Stable, listened-Stable, accepted-Stable, slept-Stable,
)

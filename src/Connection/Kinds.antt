-- ===== src/Connection/Kinds.antt =====
-- Which kinds of error an attempt reports.
use p2psc.Prelude.{Bytes, ℕ, ◌≡◌, ◌≢◌, refl, Bool-cases, inl, inr, ◌==◌, arith}
use p2psc.Errors.{
  c_string, unknown, peer_unsupported_protocol_version, mediator_connect_failure, Exception,
  runtime_error, socket_exception, message_exception, crypto_exception, connection_exception,
  runtime_error_pointer,
}
use p2psc.Crypto.OpenSsl.{OpenSsl, Base64}
use p2psc.Crypto.Key.{Keypair}
use p2psc.Message.Codec.{JsonLibrary}
use p2psc.Net.Objects.{Peer, PunchedPeer, Mediator, SocketAddressOrFileDescriptor}
use p2psc.Net.System.{Os}
use p2psc.Net.Run.{
  World, Outcome, ok, throw, aborted, crashed, blocked, stuck, Run, catch, on_exception, scoped,
  ◌>>=◌,
}
use p2psc.Net.Run.Throws.{
  IsPlain, OutcomeThrows, Throws, Throws-raise, Throws-pure, Throws-gets, Throws-if, Throws-bind,
  Throws-weaken, Throws-runtime_error, Throws-on_exception, handled-Throws, and_then-Throws,
}
use p2psc.Net.Socket.{SocketCreator}
use p2psc.Net.Messages.Exceptions.{release-Throws}
use p2psc.Mediation
use p2psc.Mediation.{version}
use p2psc.Mediation.Exceptions.{
  get_punched_peer-Throws, close_socket-Throws, destroy-Throws, connect-Throws,
}
use p2psc.Connection.{
  incompatible, require_version, connect_as_client, mediator_failure, reach, connect,
}
use p2psc.Connection.Plain.{reach_peer-Throws, client_handshake-Throws, connect_as_peer-Throws}

-- What each kind of `ConnectionException` means, where `h` is the outcome of the handshake with the
-- Mediator: no exception of the attempt has the kind `unknown`.
abbrev pub Explained : Outcome (Unit {0}) → Exception → Type 0
Explained h (connection_exception mediator_connect_failure reason) =
    (what : Bytes) × (h ≡ throw (socket_exception what)) × (reason ≡ c_string what)
Explained h (connection_exception peer_unsupported_protocol_version reason) =
    (v : ℕ) × (v ≢ version)
    × (incompatible v ≡ connection_exception peer_unsupported_protocol_version reason)
Explained h (connection_exception unknown reason) = ⊥
Explained h _ = Unit {0}

IsPlain-Explained : (h : Outcome (Unit {0})) (e : Exception) → IsPlain e → Explained h e
IsPlain-Explained h (connection_exception k reason) p = absurd p
IsPlain-Explained h (runtime_error what) p = tt
IsPlain-Explained h (socket_exception what) p = tt
IsPlain-Explained h (message_exception what) p = tt
IsPlain-Explained h (crypto_exception what) p = tt
IsPlain-Explained h (runtime_error_pointer what) p = tt

-- An outcome that throws is the one that throws this.
itself :
    (E : Exception → Type 0) (o : Outcome (Unit {0}))
    → OutcomeThrows E o
    → OutcomeThrows (λ e. (o ≡ throw e) × E e) o
itself E (throw e) h = (refl, h)
itself E (ok a) h = tt
itself E aborted h = tt
itself E crashed h = tt
itself E blocked h = tt
itself E stuck h = tt

module _ (h : Outcome (Unit {0})) where
  plain : {A : Type 0} {m : Run A} → Throws IsPlain m → Throws (Explained h) m
  plain = Throws-weaken _ (IsPlain-Explained h)

  require_version-Throws : (p : PunchedPeer) → Throws (Explained h) (require_version p)
  unfolding require_version incompatible
  require_version-Throws p = elim (Bool-cases (p.version == version)) [
    | inl same ↦ rw same (Throws-pure tt)
    | inr other ↦ rw other (Throws-raise _ (p.version, (λ e. ground (arith, other, e)), refl))
  ]

  module _ ⦃j : JsonLibrary⦄ ⦃s : OpenSsl⦄ ⦃b : Base64⦄ ⦃o : Os⦄ (our_keypair : Keypair)
      (peer : Peer) (creator : SocketCreator)
      (created : (a : SocketAddressOrFileDescriptor) → Throws IsPlain (creator a)) where
    connect_as_client-Throws : Throws (Explained h) (connect_as_client our_keypair creator)
    unfolding connect_as_client
    connect_as_client-Throws = Throws-bind _ _ (plain close_socket-Throws) λ u.
        Throws-bind _ _ (plain get_punched_peer-Throws) λ p.
          Throws-bind _ _ (require_version-Throws p) λ u.
            Throws-bind _ _ (plain (reach_peer-Throws creator created)) λ socket.
              Throws-bind _ _
                (plain (
                  Throws-on_exception _ _ (client_handshake-Throws our_keypair socket)
                    (release-Throws socket)))
                λ u. Throws-pure socket

    reach-Throws : Throws (Explained h) (reach our_keypair peer creator)
    unfolding reach
    reach-Throws = Throws-bind _ _ (Throws-gets _) λ c. Throws-if _ _ _ connect_as_client-Throws (
        Throws-if _ _ _ (plain (connect_as_peer-Throws our_keypair peer creator created))
          (plain (Throws-runtime_error _)))

    mediator_failure-Throws :
        (e : Exception)
        → (h ≡ throw e) × IsPlain e
        → Throws (Explained h) (mediator_failure our_keypair e)
    unfolding mediator_failure
    mediator_failure-Throws (socket_exception what) (failed, p) =
        Throws-raise _ (what, failed, refl)
    mediator_failure-Throws (connection_exception k reason) (failed, p) = absurd p
    mediator_failure-Throws (runtime_error what) (failed, p) = Throws-raise _ tt
    mediator_failure-Throws (message_exception what) (failed, p) = Throws-raise _ tt
    mediator_failure-Throws (crypto_exception what) (failed, p) = Throws-raise _ tt
    mediator_failure-Throws (runtime_error_pointer what) (failed, p) = Throws-raise _ tt

-- `scoped` from one state.
scoped-OutcomeThrows :
    {A : Type 0} (E : Exception → Type 0) (m : Run A) (cleanup : Run (Unit {0})) (w : World)
    → OutcomeThrows E (m w).0
    → Throws E cleanup
    → OutcomeThrows E (scoped m cleanup w).0
unfolding scoped on_exception catch ◌>>=◌
scoped-OutcomeThrows E m cleanup w hm tc =
    and_then-Throws {E = E} _ _ _
      (handled-Throws {E = E} {E' = E} (m w).0 _ (m w).1 hm
        λ e he. Throws-bind cleanup _ tc λ u. Throws-raise e he)
      λ a. Throws-bind cleanup _ tc λ u. Throws-pure a

module _ ⦃j : JsonLibrary⦄ ⦃s : OpenSsl⦄ ⦃b : Base64⦄ ⦃o : Os⦄ (our_keypair : Keypair) (peer : Peer)
    (creator : SocketCreator)
    (created : (a : SocketAddressOrFileDescriptor) → Throws IsPlain (creator a))
    (mediator : Mediator) (w : World) where
  -- The state in which the handshake with the Mediator begins, and its outcome.
  abbrev pub start_world : World
  start_world = record w { connection = Mediation.new mediator }

  abbrev pub handshake : Outcome (Unit {0})
  handshake = (Mediation.connect our_keypair peer creator start_world).0

  caught :
      OutcomeThrows
        (Explained handshake)
        (catch
          (Mediation.connect our_keypair peer creator)
          (mediator_failure our_keypair)
          start_world).0
  unfolding catch
  caught =
      handled-Throws {E = Explained handshake} {E' = λ e. (handshake ≡ throw e) × IsPlain e}
        handshake (mediator_failure our_keypair) _
        (itself IsPlain handshake
          ((connect-Throws our_keypair peer creator created).after start_world))
        (mediator_failure-Throws handshake our_keypair peer creator created)

  -- With a socket creator that throws no `ConnectionException`, a `ConnectionException` of an attempt
  -- has the kind `mediator_connect_failure` only where the handshake with the Mediator has thrown a
  -- `SocketException` and with its text up to the first NUL, and `peer_unsupported_protocol_version` only for a version
  -- that differs from the library's, which its text names; it never has the kind `unknown`.
  pub connect-Explained :
      OutcomeThrows (Explained handshake) (connect our_keypair peer mediator creator w).0
  unfolding connect ◌>>=◌
  connect-Explained =
      scoped-OutcomeThrows (Explained handshake) _ Mediation.destroy start_world
        (and_then-Throws {E = Explained handshake} _ _ _ caught
          λ u. reach-Throws handshake our_keypair peer creator created)
        (plain handshake destroy-Throws)

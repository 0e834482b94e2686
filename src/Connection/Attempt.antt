-- ===== src/Connection/Attempt.antt =====
-- A whole attempt, from the handshake with the Mediator to the call of the user's function.
pub mod Client
pub mod Waiting
use p2psc.Prelude.{ℕ, ◌≡◌, ap, ◌∙◌, arith, some, ◌∷◌, ◌++◌, get_elem?}
use p2psc.Crypto.OpenSsl.{OpenSsl, Base64}
use p2psc.Crypto.Key.{Keypair}
use p2psc.Errors.{unset}
use p2psc.Message.Codec.{JsonLibrary}
use p2psc.Net.Objects.{Socket, Peer, Mediator}
use p2psc.Net.System.{Os}
use p2psc.Net.Run.{World, ok, ◌>>=◌, catch}
use p2psc.Net.Run.Returns.{bind-eq, catch-eq, scoped-eq}
use p2psc.Net.Run.Keeping.{Keeps, keep_rules}
use p2psc.Net.Socket.{create_socket}
use p2psc.Net.Socket.Keeping.{close-Keeps}
use p2psc.Mediation
use p2psc.Mediation.{close_socket}
use p2psc.Connection.{Callback, mediator_failure, reach, connect, start}
use p2psc.Connection.Callback.{calls, reports, Returns, start-calls}

pub close_socket-Keeps : ⦃o : Os⦄ → Keeps close_socket
unfolding close_socket Mediation.get_socket
close_socket-Keeps = search (keep_rules, close-Keeps) depth 14

-- The thread's state with a new `MediatorConnection`.
abbrev pub begun : Mediator → World → World
begun mediator w = record w { connection = Mediation.new mediator }

module _ ⦃j : JsonLibrary⦄ ⦃s : OpenSsl⦄ ⦃b : Base64⦄ ⦃o : Os⦄ (our_keypair : Keypair) (peer : Peer)
    (mediator : Mediator) (p : ℕ) (w w₁ w₂ w₃ : World)
    (introduced : Mediation.connect our_keypair peer create_socket (begun mediator w) ≡ (ok tt, w₁))
    (reached : reach our_keypair peer create_socket w₁ ≡ (ok (some p), w₂))
    (destroyed : Mediation.destroy w₂ ≡ (ok tt, w₃)) where
  -- `w₁` is the state after the handshake with the Mediator, `w₂` with the other peer reached.
  connect-run : connect our_keypair peer mediator create_socket w ≡ (ok (some p), w₃)
  unfolding connect ◌>>=◌
  connect-run =
      let attempted =
        catch-eq (Mediation.connect our_keypair peer create_socket) (begun mediator w) w₁ tt
          introduced (mediator_failure our_keypair) in
      let through =
        bind-eq
          (catch (Mediation.connect our_keypair peer create_socket) (mediator_failure our_keypair))
          (λ x. reach our_keypair peer create_socket) (begun mediator w) w₁ tt attempted
        ∙ reached in
      scoped-eq _ (begun mediator w) w₂ (some p) through Mediation.destroy w₃ destroyed

  pub connected-calls :
      (callback : Callback) (object : Socket)
      → Returns callback
      → get_elem? w₃.sockets p ≡ some object
      → calls (start our_keypair peer mediator callback w).1.trace ≡ (unset, some p) ∷ calls w.trace
  connected-calls callback object returns there =
      start-calls callback returns our_keypair peer mediator w
      ∙ ap (λ x. reports x.0 x.1 ++ calls w.trace) connect-run
      ∙ reports-eq
    where
      reports-eq : reports (ok (some p)) w₃ ++ calls w.trace ≡ (unset, some p) ∷ calls w.trace
      reports-eq = ground (arith, there)

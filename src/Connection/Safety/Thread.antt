-- ===== src/Connection/Safety/Thread.antt =====
-- Assertions and null pointers in the thread of an attempt.
use p2psc.Prelude.{none, some}
use p2psc.Errors.{
  Error, Exception, runtime_error, socket_exception, message_exception, crypto_exception,
  connection_exception, runtime_error_pointer,
}
use p2psc.Crypto.OpenSsl.{OpenSsl, Base64}
use p2psc.Crypto.Key.{Keypair}
use p2psc.Message.Codec.{JsonLibrary}
use p2psc.Net.Objects.{SocketPtr, Peer, Mediator}
use p2psc.Net.System.{Os}
use p2psc.Net.Run.{World, ◌>>=◌}
use p2psc.Net.Run.Safe.{Assertion, IsGood, Safe, Keeps, Safe-assume, Safe-weaken, Keeps-pure}
use p2psc.Net.Run.Safe.Compose.{Safe-bind, Safe-catch, Keeps-act, Keeps-bind}
use p2psc.Net.Socket.Safety.{HasObject, lt-IsPointer, get_socket_address-Keeps}
use p2psc.Connection.{Callback, call, on_failure, report, handle_connection, start}
use p2psc.Connection.Safety.{attempt-Safe}

-- Nothing is known of the state.
abbrev pub Anything : Assertion
Anything s c = Unit {0}

module _ ⦃o : Os⦄ (callback : Callback)
    (safe : (e : Error) (socket : SocketPtr) → Keeps Anything (callback e socket)) where
  call-Keeps : (e : Error) (socket : SocketPtr) → Keeps Anything (call callback e socket)
  unfolding call
  call-Keeps e socket = Keeps-bind _ _ (Keeps-act _) λ u. safe e socket

  on_failure-Keeps : (e : Exception) → Keeps Anything (on_failure callback e)
  unfolding on_failure
  on_failure-Keeps (connection_exception kind reason) = call-Keeps _ none
  on_failure-Keeps (runtime_error what) = call-Keeps _ none
  on_failure-Keeps (socket_exception what) = call-Keeps _ none
  on_failure-Keeps (message_exception what) = call-Keeps _ none
  on_failure-Keeps (crypto_exception what) = call-Keeps _ none
  on_failure-Keeps (runtime_error_pointer what) = Keeps-pure tt

  module _ ⦃j : JsonLibrary⦄ ⦃ssl : OpenSsl⦄ ⦃b : Base64⦄ where
    report-Safe :
        (socket : SocketPtr)
        → Safe (λ s c. HasObject socket s) (report callback socket) (λ u. Anything) Anything
    unfolding report ◌>>=◌
    report-Safe none = Safe-assume _ (λ s c h. h) λ no. absurd no
    report-Safe (some p) =
        Safe-bind (λ a. Anything) _ _
          (Safe-weaken _ (λ s c h. h) (λ a s c h. tt) (λ s c h. tt)
            (get_socket_address-Keeps p (λ s c h. lt-IsPointer p s h)))
          λ a. call-Keeps _ (some p)

    module _ (our_keypair : Keypair) (peer : Peer) (mediator : Mediator) where
      thread-Keeps : Keeps Anything (start our_keypair peer mediator callback)
      unfolding start handle_connection
      thread-Keeps =
          Safe-catch Anything _ _
            (Safe-bind (λ socket s c. HasObject socket s) _ _
              (attempt-Safe our_keypair peer mediator) report-Safe)
            on_failure-Keeps

      -- Whatever the system, the Mediator and the peer do, the thread of an attempt fails no
      -- assertion and does not run out of the model's fuel, and it follows a null pointer only where
      -- `accept` has failed, if the same holds of the user's function.
      pub start-IsGood :
          (w : World)
          → IsGood
              (λ u. Anything)
              Anything
              (start our_keypair peer mediator callback w).0
              (start our_keypair peer mediator callback w).1
      start-IsGood w = thread-Keeps.after w tt

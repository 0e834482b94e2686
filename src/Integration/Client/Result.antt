-- ===== src/Integration/Client/Result.antt =====
-- What the calls of the tests' client return.
use p2psc.Prelude.{
  ℕ, ◌≡◌, ◌⊎◌, inl, inr, subst, refl, ap, ◌∙◌, Bool, true, false, Option, none, some, List, [], ◌∷◌,
  ◌++◌, if◌then◌else◌,
}
use mathlib.Core.List.{reverse, append-nil}
use p2psc.Errors.{Error}
use p2psc.Crypto.OpenSsl.{OpenSsl, Base64}
use p2psc.Message.Codec.{JsonLibrary}
use p2psc.Net.Objects.{SocketPtr, SocketAddressOrFileDescriptor, from_address, from_descriptor}
use p2psc.Net.System.{Os}
use p2psc.Net.Run.{World, ◌>>=◌}
use p2psc.Net.Run.Stable.{Stable}
use p2psc.Net.Silence.{effects}
use p2psc.Net.Socket.Silence.{socket_from_address-Stable, socket_from_descriptor-Stable}
use p2psc.Connection.{connect}
use p2psc.Connection.Callback.{
  calls, CallsAre, calls_ignored, reports, Returns, IsReport, reports-AtMostOne,
  handle_connection-calls,
}
use p2psc.Integration.StatefulSocket.{stateful_socket_creator}
use p2psc.Integration.Client.{
  Client, Arrival, callback, return_between, in_time, socket_creator, made, connect_async,
  connect_sync,
}

module _ ⦃o : Os⦄ where
  socket_creator-Stable :
      (before : List (Error × SocketPtr)) (a : SocketAddressOrFileDescriptor)
      → Stable (CallsAre before) (socket_creator a)
  unfolding socket_creator stateful_socket_creator
  socket_creator-Stable before (from_address a) =
      search (effects, socket_from_address-Stable {P = CallsAre before}) depth 14
  socket_creator-Stable before (from_descriptor fd) =
      search (effects, socket_from_descriptor-Stable {P = CallsAre before}) depth 14

callback-Returns : Returns callback
unfolding ◌>>=◌
callback-Returns e s w = (refl, refl)

-- The socket that the callback is given, and a null pointer where it is not called.
abbrev pub handed : List (Error × SocketPtr) → SocketPtr
handed [] = none
handed ((e, p) ∷ _) = p

-- A call that has returned a null pointer, unless the callback is still to write to its variable.
abbrev pub abandoned : List (Error × SocketPtr) → Option SocketPtr
abandoned [] = some none
abandoned (_ ∷ _) = none

return_after :
    (l : List (Error × SocketPtr))
    → (l ≡ []) ⊎ ((c : Error × SocketPtr) × (l ≡ c ∷ []) × IsReport c)
    → (return_between (reverse l) [] ≡ some (handed l))
      × (return_between [] (reverse l) ≡ abandoned l)
unfolding return_between
return_after l (inl e) = rw e (refl, refl)
return_after l (inr (c, e, r)) = rw e (refl, refl)

module _ ⦃j : JsonLibrary⦄ ⦃s : OpenSsl⦄ ⦃b : Base64⦄ ⦃o : Os⦄ (client : Client)
    (thread : World) where
  -- What the thread of the attempt reports.
  abbrev pub reported : List (Error × SocketPtr)
  reported =
      let (r, w') = connect client.keypair client.peer client.mediator socket_creator thread in
      reports r w'

  made-eq : calls thread.trace ≡ [] → made client thread ≡ reverse reported
  unfolding made
  made-eq none_yet = ap reverse (
      handle_connection-calls callback callback-Returns client.keypair client.peer client.mediator
        socket_creator thread (socket_creator-Stable (calls thread.trace))
      ∙ ap (λ l. reported ++ l) none_yet
      ∙ append-nil reported)

  outcomes :
      calls thread.trace ≡ []
      → (return_between (made client thread) [] ≡ some (handed reported))
        × (return_between [] (made client thread) ≡ abandoned reported)
  outcomes none_yet =
      let (r, w') = connect client.keypair client.peer client.mediator socket_creator thread in
      let one : (reported ≡ []) ⊎ ((c : Error × SocketPtr) × (reported ≡ c ∷ []) × IsReport c) =
        subst (λ l. (l ≡ []) ⊎ ((c : Error × SocketPtr) × (l ≡ c ∷ []) × IsReport c))
          (append-nil reported) (reports-AtMostOne r w' []) in
      rw (made-eq none_yet) (return_after reported one)

  -- Each of the two calls returns the socket with which the attempt ends, or a null pointer if the
  -- attempt ends without one, where the attempt ends before the call returns: in `connect_sync` no
  -- later than the time-out and than any spurious end of the wait. Otherwise the call returns a null
  -- pointer where the attempt reports nothing at all, and where it does, the report is written to a
  -- variable that is gone.
  pub connect_lem :
      (is_first : Bool) (timeout_ms : ℕ) (spurious : Option ℕ) (arrival : Arrival)
      → calls thread.trace ≡ []
      → (connect_async client thread is_first
          ≡ (if is_first then some (handed reported) else abandoned reported))
        × (connect_sync client thread timeout_ms spurious arrival ≡ (
            if in_time timeout_ms spurious arrival
            then some (handed reported)
            else abandoned reported))
  unfolding connect_async connect_sync
  connect_lem is_first timeout_ms spurious arrival none_yet =
      (choose is_first, choose (in_time timeout_ms spurious arrival))
    where
      choose :
          (b : Bool)
          → (if b
              then return_between (made client thread) []
              else return_between [] (made client thread))
            ≡ (if b then some (handed reported) else abandoned reported)
      choose true = (outcomes none_yet).0
      choose false = (outcomes none_yet).1

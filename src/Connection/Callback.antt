-- ===== src/Connection/Callback.antt =====
-- How an attempt reports: which calls of the user's function it makes, on every outcome.
use p2psc.Prelude.{
  ◌≡◌, refl, ap, ◌∙◌, none, some, get_elem?, arith, Option-cases, ◌⊎◌, inl, inr, List, true, false,
  [], ◌∷◌, ◌++◌,
}
use p2psc.Errors.{
  c_string, unknown, Error, unset, is_set, error, runtime_error, socket_exception,
  message_exception, crypto_exception, connection_exception, runtime_error_pointer,
}
use p2psc.Crypto.OpenSsl.{OpenSsl, Base64}
use p2psc.Crypto.Key.{Keypair}
use p2psc.Message.Codec.{JsonLibrary}
use p2psc.Net.Objects.{SocketPtr, Peer, Mediator, SocketAddressOrFileDescriptor}
use p2psc.Net.System.{Os, Action, Trace, called_back}
use p2psc.Net.Run.{
  World, Outcome, ok, throw, aborted, crashed, blocked, stuck, ◌>>=◌, catch, and_then, handled,
}
use p2psc.Net.Run.Stable.{Stable}
use p2psc.Net.Silence.{Ignores, IsSilent}
use p2psc.Net.Socket
use p2psc.Net.Socket.{SocketCreator, create_socket}
use p2psc.Net.Socket.Silence.{create_socket-Stable}
use p2psc.Connection.{Callback, connect, call, on_failure, report, handle_connection, start}
use p2psc.Connection.Silence.{connect-Stable}

-- The calls of the user's function, newest first.
abbrev pub calls : Trace → List (Error × SocketPtr)
calls [] = []
calls (called_back e s ∷ t) = (e, s) ∷ calls t
calls (_ ∷ t) = calls t

abbrev pub CallsAre : List (Error × SocketPtr) → Trace → Type 0
CallsAre before t = calls t ≡ before

calls-silent : (a : Action) → IsSilent a → (t : Trace) → calls (a ∷ t) ≡ calls t
calls-silent (called_back e s) h t = absurd h
calls-silent _ h t = refl

instance pub calls_ignored : {before : List (Error × SocketPtr)} → Ignores (CallsAre before)
calls_ignored = record { silent = λ a h t e. calls-silent a h t ∙ e }

-- What an attempt reports for the outcome of `connect` and the state that it leaves.
abbrev pub reports : Outcome SocketPtr → World → List (Error × SocketPtr)
reports (ok none) w = []
reports (ok (some p)) w = elim (get_elem? w.sockets p) [ none ↦ [] | some s ↦ (unset, some p) ∷ [] ]
reports (throw (connection_exception kind reason)) w = (error kind reason, none) ∷ []
reports (throw (runtime_error what)) w = (error unknown (c_string what), none) ∷ []
reports (throw (socket_exception what)) w = (error unknown (c_string what), none) ∷ []
reports (throw (message_exception what)) w = (error unknown (c_string what), none) ∷ []
reports (throw (crypto_exception what)) w = (error unknown (c_string what), none) ∷ []
reports (throw (runtime_error_pointer what)) w = []
reports _ w = []

-- The user's function returns, and starts nothing that calls it again.
abbrev pub Returns : Callback → Type 0
Returns callback =
    (e : Error) (s : SocketPtr) (w : World)
    → ((callback e s w).0 ≡ ok tt) × (calls (callback e s w).1.trace ≡ calls w.trace)

module _ ⦃j : JsonLibrary⦄ ⦃s : OpenSsl⦄ ⦃b : Base64⦄ ⦃o : Os⦄ (callback : Callback)
    (returns : Returns callback) where
  abbrev reporting : Outcome SocketPtr → World → Outcome Unit × World
  reporting r w =
      let (r', w') = and_then r (report callback) w in handled r' (on_failure callback) w'

  reported :
      (r : Outcome SocketPtr) (w : World)
      → calls (reporting r w).1.trace ≡ reports r w ++ calls w.trace
  unfolding report call on_failure ◌>>=◌ Socket.get_socket_address
  reported (ok none) w = refl
  reported (ok (some p)) w = elim (Option-cases (get_elem? w.sockets p)) [
    | inl e ↦ ground arith
    | inr (s, e) ↦
        let after_call : World = record w { trace = called_back unset (some p) ∷ w.trace } in
        ground (arith, (returns unset (some p) after_call).0, (returns unset (some p) after_call).1)
  ]
  reported (throw (connection_exception kind reason)) w = (returns _ _ _).1
  reported (throw (runtime_error what)) w = (returns _ _ _).1
  reported (throw (socket_exception what)) w = (returns _ _ _).1
  reported (throw (message_exception what)) w = (returns _ _ _).1
  reported (throw (crypto_exception what)) w = (returns _ _ _).1
  reported (throw (runtime_error_pointer what)) w = refl
  reported aborted w = refl
  reported crashed w = refl
  reported blocked w = refl
  reported stuck w = refl

module _ ⦃j : JsonLibrary⦄ ⦃s : OpenSsl⦄ ⦃b : Base64⦄ ⦃o : Os⦄ (callback : Callback)
    (returns : Returns callback) where
  pub handle_connection-calls :
      (k : Keypair) (peer : Peer) (mediator : Mediator) (creator : SocketCreator) (w : World)
      → ((a : SocketAddressOrFileDescriptor) → Stable (CallsAre (calls w.trace)) (creator a))
      → let (r, w') = connect k peer mediator creator w in
        calls (handle_connection k peer mediator callback creator w).1.trace
        ≡ reports r w' ++ calls w.trace
  unfolding handle_connection catch ◌>>=◌
  handle_connection-calls k peer mediator creator w created =
      let (r, w') = connect k peer mediator creator w in
      reported callback returns r w'
      ∙ ap (λ t. reports r w' ++ t)
          ((connect-Stable {P = CallsAre (calls w.trace)} k creator created peer mediator).after w
            refl)

  -- An attempt calls the user's function as the outcome of `connect` says and at no other time: for
  -- a socket with no error, for an exception of the library with its error and no socket, and not
  -- at all for a thrown pointer or where the thread stops. The user's function has to return.
  pub start-calls :
      (k : Keypair) (peer : Peer) (mediator : Mediator) (w : World)
      → let (r, w') = connect k peer mediator create_socket w in
        calls (start k peer mediator callback w).1.trace ≡ reports r w' ++ calls w.trace
  unfolding start
  start-calls k peer mediator w =
      handle_connection-calls k peer mediator create_socket w create_socket-Stable

-- One call has a socket or an error, never both and never neither.
abbrev pub IsReport : Error × SocketPtr → Type 0
IsReport (e, none) = is_set e ≡ true
IsReport (e, some p) = is_set e ≡ false

-- No call, or one.
abbrev pub AtMostOne : List (Error × SocketPtr) → List (Error × SocketPtr) → Type 0
AtMostOne before after =
    (after ≡ before) ⊎ ((c : Error × SocketPtr) × (after ≡ c ∷ before) × IsReport c)

pub reports-AtMostOne :
    (r : Outcome SocketPtr) (w : World) (before : List (Error × SocketPtr))
    → AtMostOne before (reports r w ++ before)
unfolding is_set
reports-AtMostOne (ok none) w before = inl refl
reports-AtMostOne (ok (some p)) w before = elim (Option-cases (get_elem? w.sockets p)) [
  | inl e ↦ inl (ground arith)
  | inr (s, e) ↦ inr ((unset, some p), ground arith, refl)
]
reports-AtMostOne (throw (connection_exception kind reason)) w before = inr (_, refl, refl)
reports-AtMostOne (throw (runtime_error what)) w before = inr (_, refl, refl)
reports-AtMostOne (throw (socket_exception what)) w before = inr (_, refl, refl)
reports-AtMostOne (throw (message_exception what)) w before = inr (_, refl, refl)
reports-AtMostOne (throw (crypto_exception what)) w before = inr (_, refl, refl)
reports-AtMostOne (throw (runtime_error_pointer what)) w before = inl refl
reports-AtMostOne aborted w before = inl refl
reports-AtMostOne crashed w before = inl refl
reports-AtMostOne blocked w before = inl refl
reports-AtMostOne stuck w before = inl refl

module _ ⦃j : JsonLibrary⦄ ⦃s : OpenSsl⦄ ⦃b : Base64⦄ ⦃o : Os⦄ (callback : Callback)
    (returns : Returns callback) where
  -- An attempt calls the user's function at most once, and then with an error and no socket, or
  -- with a socket and no error. The user's function has to return.
  pub start-AtMostOne :
      (k : Keypair) (peer : Peer) (mediator : Mediator) (w : World)
      → AtMostOne (calls w.trace) (calls (start k peer mediator callback w).1.trace)
  start-AtMostOne k peer mediator w =
      let (r, w') = connect k peer mediator create_socket w in
      rw (start-calls callback returns k peer mediator w) (reports-AtMostOne r w' (calls w.trace))

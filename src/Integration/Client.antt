-- ===== src/Integration/Client.antt =====
-- integration/src/util/client.h and client.cpp: a connection attempt of the tests, whose callback
-- writes to a local variable of the call that started it.
pub mod Result
use p2psc.Prelude.{
  ℕ, Bool, true, false, Option, none, some, List, [], ◌∷◌, leb, ◌&&◌, if◌then◌else◌,
}
use mathlib.Core.List.{reverse}
use p2psc.Errors.{Error}
use p2psc.Crypto.OpenSsl.{OpenSsl, Base64}
use p2psc.Crypto.Key.{Keypair}
use p2psc.Message.Codec.{JsonLibrary}
use p2psc.Net.Objects.{SocketPtr, Peer, Mediator, SocketAddressOrFileDescriptor}
use p2psc.Net.System.{Os}
use p2psc.Net.Run.{World, Run, pure, ◌>>=◌}
use p2psc.Connection.{Callback, handle_connection}
use p2psc.Connection.Callback.{calls}
use p2psc.Integration.StatefulSocket.{stateful_socket_creator}

pub record Client : Type 0 where
  pub peer : Peer
  pub mediator : Mediator
  pub keypair : Keypair

-- The variable `socket`, and whether the call that it belongs to has not returned.
pub record Local : Type 0 where
  pub socket : SocketPtr
  pub is_alive : Bool

abbrev pub null_local : Local
null_local = record { socket = none; is_alive = true }

-- The body of the callback. `none` is a write to a variable that is gone.
unfoldable pub store : SocketPtr → Local → Option Local
store created_socket local =
    if local.is_alive then some (record local { socket = created_socket }) else none

abbrev after_store : Option Local → (Local → Option Local) → Option Local
after_store none more = none
after_store (some local) more = more local

store_all : List (Error × SocketPtr) → Local → Option Local
unfolding store
store_all [] local = some local
store_all ((e, created_socket) ∷ made) local =
    after_store (store created_socket local) (store_all made)

abbrev returned : Option Local → List (Error × SocketPtr) → Option SocketPtr
returned none made = none
returned (some local) made = elim (store_all made (record local { is_alive = false })) [
  | none ↦ none
  | some _ ↦ some local.socket
]

-- `return socket`, with the calls of the callback before and after it.
unfoldable pub return_between :
    List (Error × SocketPtr) → List (Error × SocketPtr) → Option SocketPtr
unfolding store_all
return_between before after = returned (store_all before null_local) after

-- When the callback is called: before the wait begins, or so many milliseconds after that.
pub data Arrival : Type 0 where
  early : Arrival
  at : ℕ → Arrival

-- Whether the callback is called before `wait_for` returns: by the notification, at the time-out, or
-- with no reason at the time given. A notification before the wait begins is lost.
unfoldable pub in_time : ℕ → Option ℕ → Arrival → Bool
in_time timeout_ms spurious early = true
in_time timeout_ms none (at ms) = leb ms timeout_ms
in_time timeout_ms (some wake_ms) (at ms) = leb ms timeout_ms && leb ms wake_ms

-- The callback does nothing to the state of the thread that calls it.
abbrev pub callback : Callback
callback e created_socket = pure tt

module _ ⦃o : Os⦄ where
  -- The creator of both calls. The library has the `Socket` of the object.
  unfoldable pub socket_creator : SocketAddressOrFileDescriptor → Run SocketPtr
  unfolding stateful_socket_creator
  socket_creator param = do s ← stateful_socket_creator param; pure (some s.socket)

module _ ⦃j : JsonLibrary⦄ ⦃s : OpenSsl⦄ ⦃b : Base64⦄ ⦃o : Os⦄ (client : Client)
    (thread : World) where
  -- The calls of the callback by the thread of `Connection::connect`, oldest first.
  unfoldable pub made : List (Error × SocketPtr)
  made = reverse (
      calls
        (handle_connection client.keypair client.peer client.mediator callback socket_creator
          thread).1.trace)

  -- `is_first`: the thread comes to its call of the callback before the return.
  unfoldable pub connect_async : Bool → Option SocketPtr
  unfolding return_between made
  connect_async is_first = if is_first then return_between made [] else return_between [] made

  unfoldable pub connect_sync : ℕ → Option ℕ → Arrival → Option SocketPtr
  unfolding return_between made in_time
  connect_sync timeout_ms spurious arrival =
      if in_time timeout_ms spurious arrival then return_between made [] else return_between [] made

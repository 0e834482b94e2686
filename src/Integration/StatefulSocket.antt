-- ===== src/Integration/StatefulSocket.antt =====
-- integration/src/util/stateful_socket.h and stateful_socket.cpp: the socket of the tests' clients,
-- which notes what it sends and receives.
pub mod Notes
use p2psc.Prelude.{ℕ, List, [], ◌∷◌, ◌++◌, Bytes}
use p2psc.Net.Objects.{SocketAddress, SocketAddressOrFileDescriptor, from_address, from_descriptor}
use p2psc.Net.System.{Os}
use p2psc.Net.Run.{World, Outcome, ok, throw, aborted, crashed, blocked, stuck, Run, pure, ◌>>=◌}
use p2psc.Net.Socket
use p2psc.Net.Socket.{socket_from_address, socket_from_descriptor}

-- `socket` is the place of the `Socket` that the object is built on.
pub record StatefulSocket : Type 0 where
  pub socket : ℕ
  pub received_messages : List Bytes
  pub sent_messages : List Bytes

-- The end of a member function, which may throw: how it ended, with the object and the thread then.
abbrev pub Ended : Type 0 → Type 0
Ended A = Outcome A × StatefulSocket × World

-- An object with nothing noted.
unfoldable pub unused : ℕ → StatefulSocket
unused p = record { socket = p; received_messages = []; sent_messages = [] }

-- `push_back` comes after the call of the base class, where that has returned.
unfoldable pub noted_sent : Outcome (Unit {0}) → Bytes → StatefulSocket → StatefulSocket
noted_sent (ok u) message s = record s { sent_messages = s.sent_messages ++ (message ∷ []) }
noted_sent _ message s = s

unfoldable pub noted_received : Outcome Bytes → StatefulSocket → StatefulSocket
noted_received (ok message) s = record s {
  received_messages = s.received_messages ++ (message ∷ []);
}
noted_received _ s = s

module _ ⦃o : Os⦄ where
  -- The two constructors, as the creator calls them.
  unfoldable pub stateful_socket_creator : SocketAddressOrFileDescriptor → Run StatefulSocket
  stateful_socket_creator (from_address a) = do p ← socket_from_address a; pure (unused p)
  stateful_socket_creator (from_descriptor fd) = do p ← socket_from_descriptor fd; pure (unused p)

  unfoldable pub send : Bytes → StatefulSocket → World → Ended (Unit {0})
  unfolding noted_sent
  send message s w =
      let (outcome, w') = Socket.send s.socket message w in
      (outcome, noted_sent outcome message s, w')

  unfoldable pub receive : StatefulSocket → World → Ended Bytes
  unfolding noted_received
  receive s w =
      let (outcome, w') = Socket.receive s.socket w in (outcome, noted_received outcome s, w')

unfoldable pub get_received_messages : StatefulSocket → List Bytes
get_received_messages s = s.received_messages

unfoldable pub get_sent_messages : StatefulSocket → List Bytes
get_sent_messages s = s.sent_messages

-- ===== src/Net/Socket/Exceptions.antt =====
-- The member functions of `Socket` throw no `ConnectionException`.
use p2psc.Prelude.{ℕ, Option, none, some, List, [], ◌∷◌, Bytes}
use p2psc.Net.Objects.{
  SocketAddress, Socket, Fd, SocketAddressOrFileDescriptor, from_address, from_descriptor,
}
use p2psc.Net.System.{Os, Read, bytes, failed}
use p2psc.Net.Run.Throws.{IsPlain, Throws, throws_rules}
use p2psc.Net.Socket.{
  check_is_open, connect_status, connect_socket, note_opened, socket_from_address,
  socket_from_descriptor, destroy, send, receive_loop, receive, close_status, close, create_socket,
}

check_is_open-Throws : (v : Socket) → Throws IsPlain (check_is_open v)
unfolding check_is_open
check_is_open-Throws v = search throws_rules

module _ ⦃o : Os⦄ where
  pub send-Throws : (p : ℕ) (m : Bytes) → Throws IsPlain (send p m)
  unfolding send
  send-Throws p m = search (throws_rules, check_is_open-Throws) depth 14

  receive_loop-Throws :
      (fd : Fd) (reads : List Read) (d : Bytes) → Throws IsPlain (receive_loop fd reads d)
  unfolding receive_loop
  receive_loop-Throws fd [] d = search throws_rules
  receive_loop-Throws fd (failed r ∷ reads) d = search throws_rules
  receive_loop-Throws fd (bytes b c ∷ reads) d =
      search (throws_rules, receive_loop-Throws fd reads) depth 14

  pub receive-Throws : (p : ℕ) → Throws IsPlain (receive p)
  unfolding receive
  receive-Throws p = search (throws_rules, check_is_open-Throws, receive_loop-Throws) depth 14

  connect_status-Throws : (s : Socket) (r : Option Bytes) → Throws IsPlain (connect_status s r)
  unfolding connect_status
  connect_status-Throws s none = search throws_rules
  connect_status-Throws s (some reason) = search throws_rules

  connect_socket-Throws : (s : Socket) → Throws IsPlain (connect_socket s)
  unfolding connect_socket
  connect_socket-Throws s = search (throws_rules, connect_status-Throws) depth 14

  note_opened-Throws : (fd : Fd) → Throws IsPlain (note_opened fd)
  unfolding note_opened
  note_opened-Throws none = search throws_rules
  note_opened-Throws (some fd) = search throws_rules

  socket_from_address-Throws : (a : SocketAddress) → Throws IsPlain (socket_from_address a)
  unfolding socket_from_address
  socket_from_address-Throws a =
      search (throws_rules, note_opened-Throws, connect_socket-Throws) depth 14

  socket_from_descriptor-Throws : (fd : ℕ) → Throws IsPlain (socket_from_descriptor fd)
  unfolding socket_from_descriptor
  socket_from_descriptor-Throws fd = search throws_rules depth 14

  pub create_socket-Throws : (a : SocketAddressOrFileDescriptor) → Throws IsPlain (create_socket a)
  unfolding create_socket
  create_socket-Throws (from_address a) = search (throws_rules, socket_from_address-Throws) depth 14
  create_socket-Throws (from_descriptor fd) =
      search (throws_rules, socket_from_descriptor-Throws) depth 14

  pub destroy-Throws : (p : ℕ) → Throws IsPlain (destroy p)
  unfolding destroy
  destroy-Throws p = search throws_rules depth 14

  close_status-Throws :
      (p : ℕ) (v : Socket) (r : Option Bytes) → Throws IsPlain (close_status p v r)
  unfolding close_status
  close_status-Throws p v none = search throws_rules depth 14
  close_status-Throws p v (some reason) = search throws_rules

  pub close-Throws : (p : ℕ) → Throws IsPlain (close p)
  unfolding close
  close-Throws p = search (throws_rules, close_status-Throws) depth 14

-- ===== src/Net/Socket/Keeping.antt =====
-- The member functions of `Socket` leave the thread's `MediatorConnection` as it is.
use p2psc.Prelude.{ℕ, none, some, [], ◌∷◌, Option, List, Bytes}
use p2psc.Net.Objects.{Socket, Fd, SocketAddressOrFileDescriptor, from_address, from_descriptor}
use p2psc.Net.System.{Os, Read, bytes, failed}
use p2psc.Net.Run.Keeping.{Keeps, keep_rules, Keeps-bind, Keeps-act}
use p2psc.Net.Socket.{
  send, receive, receive_loop, close, close_status, create_socket, socket_from_address,
  socket_from_descriptor, connect_socket, connect_status, note_opened, check_is_open, destroy,
}

module _ ⦃o : Os⦄ where
  pub send-Keeps : (p : ℕ) (message : Bytes) → Keeps (send p message)
  unfolding send check_is_open
  send-Keeps p message = search keep_rules depth 20

  receive_loop-Keeps : (fd : Fd) (reads : List Read) (d : Bytes) → Keeps (receive_loop fd reads d)
  unfolding receive_loop
  receive_loop-Keeps fd [] d = search keep_rules
  receive_loop-Keeps fd (failed reason ∷ reads) d = search keep_rules
  receive_loop-Keeps fd (bytes b c ∷ reads) d =
      Keeps-bind _ _ (Keeps-act _) λ _. search (keep_rules, receive_loop-Keeps fd reads)

  pub receive-Keeps : (p : ℕ) → Keeps (receive p)
  unfolding receive check_is_open
  receive-Keeps p = search (keep_rules, receive_loop-Keeps) depth 14

  close_status-Keeps : (p : ℕ) (s : Socket) (r : Option Bytes) → Keeps (close_status p s r)
  unfolding close_status
  close_status-Keeps p s none = search keep_rules
  close_status-Keeps p s (some reason) = search keep_rules

  pub close-Keeps : (p : ℕ) → Keeps (close p)
  unfolding close
  close-Keeps p = search (keep_rules, close_status-Keeps) depth 14

  pub destroy-Keeps : (p : ℕ) → Keeps (destroy p)
  unfolding destroy
  destroy-Keeps p = search keep_rules depth 14

  connect_status-Keeps : (s : Socket) (r : Option Bytes) → Keeps (connect_status s r)
  unfolding connect_status
  connect_status-Keeps s none = search keep_rules
  connect_status-Keeps s (some reason) = search keep_rules

  connect_socket-Keeps : (s : Socket) → Keeps (connect_socket s)
  unfolding connect_socket
  connect_socket-Keeps s = search (keep_rules, connect_status-Keeps) depth 14

  note_opened-Keeps : (fd : Fd) → Keeps (note_opened fd)
  unfolding note_opened
  note_opened-Keeps none = search keep_rules
  note_opened-Keeps (some fd) = search keep_rules

  pub create_socket-Keeps : (a : SocketAddressOrFileDescriptor) → Keeps (create_socket a)
  unfolding create_socket socket_from_address socket_from_descriptor
  create_socket-Keeps (from_address a) =
      search (keep_rules, note_opened-Keeps, connect_socket-Keeps) depth 20
  create_socket-Keeps (from_descriptor fd) = search keep_rules depth 14

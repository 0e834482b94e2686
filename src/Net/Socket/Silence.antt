-- ===== src/Net/Socket/Silence.antt =====
-- No member function of `Socket` calls the user's function.
use p2psc.Prelude.{ℕ, Option, none, some, List, [], ◌∷◌, Bytes}
use p2psc.Net.Objects.{
  SocketAddress, Socket, Fd, SocketAddressOrFileDescriptor, from_address, from_descriptor,
}
use p2psc.Net.System.{Os, Trace, Read, bytes, failed}
use p2psc.Net.Run.Stable.{Stable}
use p2psc.Net.Silence.{Ignores, effects}
use p2psc.Net.Socket.{
  connect_status, connect_socket, note_opened, socket_from_address, socket_from_descriptor, destroy,
  send, receive_loop, receive, close_status, close, get_socket_address, create_socket,
}

module _ {P : Trace → Type 0} ⦃i : Ignores P⦄ ⦃o : Os⦄ where
  connect_status-Stable : (s : Socket) (r : Option Bytes) → Stable P (connect_status s r)
  unfolding connect_status
  connect_status-Stable s none = search effects depth 14
  connect_status-Stable s (some reason) = search effects depth 14

  connect_socket-Stable : (s : Socket) → Stable P (connect_socket s)
  unfolding connect_socket
  connect_socket-Stable s = search (effects, connect_status-Stable) depth 14

  note_opened-Stable : (fd : Fd) → Stable P (note_opened fd)
  unfolding note_opened
  note_opened-Stable none = search effects depth 14
  note_opened-Stable (some fd) = search effects depth 14

  pub socket_from_address-Stable : (a : SocketAddress) → Stable P (socket_from_address a)
  unfolding socket_from_address
  socket_from_address-Stable a =
      search (effects, note_opened-Stable, connect_socket-Stable) depth 14

  pub socket_from_descriptor-Stable : (fd : ℕ) → Stable P (socket_from_descriptor fd)
  unfolding socket_from_descriptor
  socket_from_descriptor-Stable fd = search effects depth 14

  pub destroy-Stable : (p : ℕ) → Stable P (destroy p)
  unfolding destroy
  destroy-Stable p = search effects depth 14

  pub send-Stable : (p : ℕ) (m : Bytes) → Stable P (send p m)
  unfolding send
  send-Stable p m = search effects depth 14

  receive_loop-Stable :
      (fd : Fd) (reads : List Read) (d : Bytes) → Stable P (receive_loop fd reads d)
  unfolding receive_loop
  receive_loop-Stable fd [] d = search effects depth 14
  receive_loop-Stable fd (failed r ∷ reads) d = search effects depth 14
  receive_loop-Stable fd (bytes b c ∷ reads) d =
      search (effects, receive_loop-Stable fd reads) depth 14

  pub receive-Stable : (p : ℕ) → Stable P (receive p)
  unfolding receive
  receive-Stable p = search (effects, receive_loop-Stable) depth 14

  close_status-Stable : (p : ℕ) (s : Socket) (r : Option Bytes) → Stable P (close_status p s r)
  unfolding close_status
  close_status-Stable p s none = search effects depth 14
  close_status-Stable p s (some reason) = search effects depth 14

  pub close-Stable : (p : ℕ) → Stable P (close p)
  unfolding close
  close-Stable p = search (effects, close_status-Stable) depth 14

  pub get_socket_address-Stable : (p : ℕ) → Stable P (get_socket_address p)
  unfolding get_socket_address
  get_socket_address-Stable p = search effects depth 14

  pub create_socket-Stable : (a : SocketAddressOrFileDescriptor) → Stable P (create_socket a)
  unfolding create_socket
  create_socket-Stable (from_address a) = search (effects, socket_from_address-Stable) depth 14
  create_socket-Stable (from_descriptor fd) =
      search (effects, socket_from_descriptor-Stable) depth 14

-- ===== src/Net/Socket/Bounds.antt =====
-- The member functions of `Socket` send nothing, except one message in `send`.
use p2psc.Prelude.{ℕ, refl, Option, none, some, List, [], ◌∷◌, Bytes, arith}
use p2psc.Net.Objects.{
  SocketAddress, Socket, Fd, SocketAddressOrFileDescriptor, from_address, from_descriptor,
}
use p2psc.Net.System.{Os, Read, bytes, failed, received}
use p2psc.Net.Run.Bounded.{
  Bounded, Bounded-act, Bounded-act-sent, Bounded-bind, Bounded-first, bounded_rules,
}
use p2psc.Net.Bounds.{quiet}
use p2psc.Net.Socket.{
  connect_status, connect_socket, note_opened, socket_from_address, socket_from_descriptor, destroy,
  send, receive_loop, receive, close_status, close, create_socket,
}

module _ ⦃o : Os⦄ where
  pub send-Bounded : (p : ℕ) (m : Bytes) → Bounded 1 (send p m)
  unfolding send
  send-Bounded p m = Bounded-first _ _ (search bounded_rules) λ s.
      Bounded-first _ _ (search bounded_rules) λ _. Bounded-first _ _ (search bounded_rules) λ size.
        Bounded-first _ _ (search bounded_rules) λ errno.
          Bounded-bind {n = 1} {k = 0} _ _ (omega arith) (Bounded-act-sent _ _ _)
            λ _. search bounded_rules

  receive_loop-Bounded :
      (fd : Fd) (reads : List Read) (d : Bytes) → Bounded 0 (receive_loop fd reads d)
  unfolding receive_loop
  receive_loop-Bounded fd [] d = search bounded_rules
  receive_loop-Bounded fd (failed r ∷ reads) d = search bounded_rules
  receive_loop-Bounded fd (bytes b c ∷ reads) d =
      Bounded-first _ _ (Bounded-act (received fd b) (λ t. refl))
        λ _. search (bounded_rules, receive_loop-Bounded fd reads)

  pub receive-Bounded : (p : ℕ) → Bounded 0 (receive p)
  unfolding receive
  receive-Bounded p = search (bounded_rules, receive_loop-Bounded) depth 14

  connect_status-Bounded : (s : Socket) (r : Option Bytes) → Bounded 0 (connect_status s r)
  unfolding connect_status
  connect_status-Bounded s none = search quiet depth 14
  connect_status-Bounded s (some reason) = search quiet depth 14

  connect_socket-Bounded : (s : Socket) → Bounded 0 (connect_socket s)
  unfolding connect_socket
  connect_socket-Bounded s = search (quiet, connect_status-Bounded) depth 14

  note_opened-Bounded : (fd : Fd) → Bounded 0 (note_opened fd)
  unfolding note_opened
  note_opened-Bounded none = search quiet depth 14
  note_opened-Bounded (some fd) = search quiet depth 14

  socket_from_address-Bounded : (a : SocketAddress) → Bounded 0 (socket_from_address a)
  unfolding socket_from_address
  socket_from_address-Bounded a =
      search (quiet, note_opened-Bounded, connect_socket-Bounded) depth 14

  socket_from_descriptor-Bounded : (fd : ℕ) → Bounded 0 (socket_from_descriptor fd)
  unfolding socket_from_descriptor
  socket_from_descriptor-Bounded fd = search quiet depth 14

  pub create_socket-Bounded : (a : SocketAddressOrFileDescriptor) → Bounded 0 (create_socket a)
  unfolding create_socket
  create_socket-Bounded (from_address a) = search (quiet, socket_from_address-Bounded) depth 14
  create_socket-Bounded (from_descriptor fd) =
      search (quiet, socket_from_descriptor-Bounded) depth 14

  pub destroy-Bounded : (p : ℕ) → Bounded 0 (destroy p)
  unfolding destroy
  destroy-Bounded p = search quiet depth 14

  close_status-Bounded : (p : ℕ) (s : Socket) (r : Option Bytes) → Bounded 0 (close_status p s r)
  unfolding close_status
  close_status-Bounded p s none = search quiet depth 14
  close_status-Bounded p s (some reason) = search quiet depth 14

  pub close-Bounded : (p : ℕ) → Bounded 0 (close p)
  unfolding close
  close-Bounded p = search (quiet, close_status-Bounded) depth 14

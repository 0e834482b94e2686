-- ===== src/Net/Socket.antt =====
-- src/socket/socket.cpp and the default socket creator of include/p2psc.h.
pub mod Receive
pub mod Closing
pub mod Safety
pub mod Exceptions
pub mod Silence
pub mod Bounds
pub mod Written
pub mod Keeping
use p2psc.Prelude.{
  ℕ, ◌++◌, Bool, true, false, not, ◌&&◌, Option, none, some, List, [], ◌∷◌, Bytes, codes, to_string,
  length, ◌==◌, if◌then◌else◌,
}
use p2psc.Errors.{socket_exception}
use p2psc.Net.Objects.{
  SocketAddress, Fd, Socket, SocketPtr, SocketAddressOrFileDescriptor, from_address,
  from_descriptor,
}
use p2psc.Net.System.{Os, Read, bytes, failed, opened, connected, sent, received, closed}
use p2psc.Net.Run.{
  Run, blocked, pure, raise, stop, ask, act, make_shared, get_socket, put_socket, assert, ◌>>=◌,
  ◌>>◌,
}

abbrev pub recv_buf_size : ℕ
recv_buf_size = 1024

abbrev fd_string : Fd → Bytes
fd_string none = codes "-1"
fd_string (some fd) = to_string fd

check_is_open : Socket → Run (Unit {0})
check_is_open s = if s.is_open then pure tt else raise (socket_exception (codes "Socket is closed"))

connect_failed : SocketAddress → Bytes → Bytes
connect_failed a reason =
    codes "Failed to connect to "
    ++ (a.ip ++ (codes ":" ++ (to_string a.port ++ (codes ". Reason: " ++ reason))))

-- -1 is no length.
abbrev pub is_length : Option ℕ → Bytes → Bool
is_length none message = false
is_length (some size) message = size == length message

module _ ⦃o : Os⦄ where
  connect_status : Socket → Option Bytes → Run Socket
  connect_status s (some reason) = raise (socket_exception (connect_failed s.address reason))
  connect_status s none = do act (connected s.sock_fd s.address); pure (record s { is_open = true })

  -- `_connect`, on the object under construction.
  unfoldable pub connect_socket : Socket → Run Socket
  unfolding connect_status connect_failed
  connect_socket s = do
    assert (not s.is_open)
    status ← ask (λ t. o.connect t s.sock_fd s.address)
    connect_status s status

  note_opened : Fd → Run (Unit {0})
  note_opened none = pure tt
  note_opened (some fd) = act (opened fd)

  -- `Socket(const socket::SocketAddress &)` under `std::make_shared`.
  unfoldable pub socket_from_address : SocketAddress → Run ℕ
  unfolding note_opened connect_socket
  socket_from_address a = do
    let address : SocketAddress = record { ip = o.inet_pton a.ip; port = a.port }
    fd ← ask o.socket
    note_opened fd
    s ← connect_socket (record { sock_fd = fd; is_open = false; address = address })
    make_shared s

  -- `Socket(int)` under `std::make_shared`.
  unfoldable pub socket_from_descriptor : ℕ → Run ℕ
  socket_from_descriptor fd = do
    address ← ask (λ t. o.getpeername t fd)
    make_shared (record { sock_fd = some fd; is_open = true; address = address })

  -- The destructor: the status of `::close` is not looked at.
  unfoldable pub destroy : ℕ → Run (Unit {0})
  destroy p = do
    s ← get_socket p
    if s.is_open
        then (do act (closed s.sock_fd); put_socket p (record s { is_open = false }))
        else pure tt

  send_failed : Bytes → Option ℕ → Option Bytes → Bytes
  send_failed message size errno =
      codes "Unexpected data send length. Expected: "
      ++ (to_string (length message) ++ (codes ", actual: " ++ (fd_string size ++ reason errno)))
    where
      reason : Option Bytes → Bytes
      reason none = []
      reason (some text) = codes ". Reason: " ++ text

  unfoldable pub send : ℕ → Bytes → Run (Unit {0})
  unfolding check_is_open send_failed
  send p message = do
    s ← get_socket p
    check_is_open s
    size ← ask (λ t. o.send_size t s.sock_fd message)
    errno ← ask (λ t. o.send_errno t s.sock_fd message)
    act (sent s.sock_fd message size)
    if is_length size message
        then pure tt
        else raise (socket_exception (send_failed message size errno))

  -- The `do`-loop. When the list ends, `read` blocks for ever.
  unfoldable pub receive_loop : Fd → List Read → Bytes → Run Bytes
  receive_loop fd [] received_data = stop blocked
  receive_loop fd (failed reason ∷ reads) received_data =
      raise (
        socket_exception (codes "receive failed (fd=" ++ (fd_string fd ++ (codes "): " ++ reason))))
  receive_loop fd (bytes buffer count ∷ reads) received_data =
      let more = receive_loop fd reads (received_data ++ buffer) in
      act (received fd buffer)
      >> (if length buffer == recv_buf_size && not (count == 0)
          then more
          else if length buffer == 0
          then raise (socket_exception (codes "receive failed: Peer closed connection"))
          else pure (received_data ++ buffer))

  unfoldable pub receive : ℕ → Run Bytes
  unfolding check_is_open
  receive p = do
    s ← get_socket p
    check_is_open s
    reads ← ask (λ t. o.reads t s.sock_fd)
    receive_loop s.sock_fd reads []

  close_status : ℕ → Socket → Option Bytes → Run (Unit {0})
  close_status p s (some reason) =
      raise (socket_exception (codes "Failed to close socket. Reason: " ++ reason))
  close_status p s none = do act (closed s.sock_fd); put_socket p (record s { is_open = false })

  unfoldable pub close : ℕ → Run (Unit {0})
  unfolding close_status
  close p = do
    s ← get_socket p
    assert s.is_open
    status ← ask (λ t. o.close t s.sock_fd)
    close_status p s status

  unfoldable pub get_socket_address : ℕ → Run SocketAddress
  get_socket_address p = do s ← get_socket p; pure s.address

  -- The creator that `p2psc::connect` passes.
  unfoldable pub create_socket : SocketAddressOrFileDescriptor → Run SocketPtr
  create_socket (from_address a) = do p ← socket_from_address a; pure (some p)
  create_socket (from_descriptor fd) = do p ← socket_from_descriptor fd; pure (some p)

abbrev pub SocketCreator : Type 0
SocketCreator = SocketAddressOrFileDescriptor → Run SocketPtr

-- ===== src/Net/Listening.antt =====
-- src/socket/local_listening_socket.cpp.
pub mod Silence
pub mod Bounds
pub mod Safety
pub mod Exceptions
use p2psc.Prelude.{
  ℕ, ◌++◌, Bool, true, false, Option, none, some, Bytes, codes, to_string, if◌then◌else◌,
}
use p2psc.Errors.{runtime_error, runtime_error_pointer}
use p2psc.Net.Objects.{SocketAddress, local_ip, Fd, SocketPtr, from_descriptor}
use p2psc.Net.System.{Os, opened, closed, bound, listened, accepted}
use p2psc.Net.Run.{Run, pure, raise, ask, act, assert, ◌>>=◌, ◌>>◌}
use p2psc.Net.Socket.{SocketCreator}

-- Nobody but the owner reaches such an object, so it is a value. `_socket_creator` never changes, and
-- is an argument of `accept`, which alone uses it.
pub record LocalListeningSocket : Type 0 where
  pub sockfd : ℕ
  pub port : ℕ  -- std::uint16_t
  pub is_open : Bool

module _ ⦃o : Os⦄ where
  bind_status : ℕ → ℕ → Option Bytes → Run ℕ
  bind_status fd port none = do act (bound (some fd) port); pure fd
  bind_status fd port (some reason) = raise (
      runtime_error
        (codes "Failed to bind to port " ++ (to_string port ++ (codes ". Reason: " ++ reason))))

  -- `create_socket_fd` behind the test `sockfd < 0`.
  open_and_bind : ℕ → Fd → Run ℕ
  unfolding bind_status
  open_and_bind port none = raise (runtime_error (codes "Failed to open socket"))
  open_and_bind port (some fd) = do
    act (opened fd)
    enabled ← ask (λ t. o.reuse_address t (some fd))
    if enabled
        then (do status ← ask (λ t. o.bind t (some fd) port); bind_status fd port status)
        else raise (runtime_error_pointer (codes "Failed to set SO_REUSEADDR"))

  unfoldable pub create_socket_fd : ℕ → Run ℕ
  unfolding open_and_bind
  create_socket_fd port = do fd ← ask o.socket; open_and_bind port fd

  -- `LocalListeningSocket(SocketCreator, uint16_t)`; the status of `listen` is not looked at.
  unfoldable pub listen_on : ℕ → Run LocalListeningSocket
  unfolding create_socket_fd
  listen_on port = do
    fd ← create_socket_fd port
    act (listened (some fd))
    pure (record { sockfd = fd; port = port; is_open = true })

  -- `LocalListeningSocket(SocketCreator)`: `INADDR_ANY` is 0, and the system chooses the port.
  unfoldable pub listen_anywhere : Run LocalListeningSocket
  unfolding create_socket_fd
  listen_anywhere = do
    fd ← create_socket_fd 0
    port ← ask (λ t. o.getsockname_port t (some fd))
    act (listened (some fd))
    pure (record { sockfd = fd; port = port; is_open = true })

  unfoldable pub session : SocketCreator → LocalListeningSocket → Option ℕ → Run SocketPtr
  session socket_creator l none = pure none
  session socket_creator l (some session_fd) = do
    act (accepted (some l.sockfd) session_fd)
    socket_creator (from_descriptor session_fd)

  unfoldable pub accept : SocketCreator → LocalListeningSocket → Run SocketPtr
  unfolding session
  accept socket_creator l = do
    assert l.is_open
    session_fd ← ask (λ t. o.accept t (some l.sockfd))
    session socket_creator l session_fd

  unfoldable pub close : LocalListeningSocket → Run LocalListeningSocket
  close l =
      if l.is_open
      then (do act (closed (some l.sockfd)); pure (record l { is_open = false }))
      else pure l

  -- The destructor.
  unfoldable pub destroy : LocalListeningSocket → Run (Unit {0})
  unfolding close
  destroy l = do _ ← close l; pure tt

  unfoldable pub get_socket_address : LocalListeningSocket → SocketAddress
  get_socket_address l = record { ip = local_ip; port = l.port }

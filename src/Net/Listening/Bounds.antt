-- ===== src/Net/Listening/Bounds.antt =====
-- No member function of `LocalListeningSocket` hands a message to the system, if the socket creator
-- does not.
use p2psc.Prelude.{ℕ, Option, none, some, Bytes}
use p2psc.Net.Objects.{Fd, SocketAddressOrFileDescriptor}
use p2psc.Net.System.{Os}
use p2psc.Net.Run.Bounded.{Bounded}
use p2psc.Net.Bounds.{quiet}
use p2psc.Net.Socket.{SocketCreator}
use p2psc.Net.Listening.{
  LocalListeningSocket, bind_status, open_and_bind, create_socket_fd, listen_on, session, accept,
  destroy,
}

module _ ⦃o : Os⦄ where
  bind_status-Bounded : (fd port : ℕ) (r : Option Bytes) → Bounded 0 (bind_status fd port r)
  unfolding bind_status
  bind_status-Bounded fd port none = search quiet depth 14
  bind_status-Bounded fd port (some reason) = search quiet depth 14

  open_and_bind-Bounded : (port : ℕ) (fd : Fd) → Bounded 0 (open_and_bind port fd)
  unfolding open_and_bind
  open_and_bind-Bounded port none = search quiet depth 14
  open_and_bind-Bounded port (some fd) = search (quiet, bind_status-Bounded) depth 14

  create_socket_fd-Bounded : (port : ℕ) → Bounded 0 (create_socket_fd port)
  unfolding create_socket_fd
  create_socket_fd-Bounded port = search (quiet, open_and_bind-Bounded) depth 14

  pub listen_on-Bounded : (port : ℕ) → Bounded 0 (listen_on port)
  unfolding listen_on
  listen_on-Bounded port = search (quiet, create_socket_fd-Bounded) depth 14

  session-Bounded :
      (creator : SocketCreator) (l : LocalListeningSocket) (fd : Option ℕ)
      → ((a : SocketAddressOrFileDescriptor) → Bounded 0 (creator a))
      → Bounded 0 (session creator l fd)
  unfolding session
  session-Bounded creator l none created = search quiet depth 14
  session-Bounded creator l (some fd) created = search (quiet, created) depth 14

  pub accept-Bounded :
      (creator : SocketCreator) (l : LocalListeningSocket)
      → ((a : SocketAddressOrFileDescriptor) → Bounded 0 (creator a))
      → Bounded 0 (accept creator l)
  unfolding accept
  accept-Bounded creator l created = search (quiet, session-Bounded) depth 14

  pub destroy-Bounded : (l : LocalListeningSocket) → Bounded 0 (destroy l)
  unfolding destroy
  destroy-Bounded l = search quiet depth 14

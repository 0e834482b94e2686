-- ===== src/Net/Listening/Silence.antt =====
-- No member function of `LocalListeningSocket` calls the user's function, if the socket creator
-- does not.
use p2psc.Prelude.{ℕ, Option, none, some, Bytes}
use p2psc.Net.Objects.{Fd, SocketAddressOrFileDescriptor}
use p2psc.Net.System.{Os, Trace}
use p2psc.Net.Run.Stable.{Stable}
use p2psc.Net.Silence.{Ignores, effects}
use p2psc.Net.Socket.{SocketCreator}
use p2psc.Net.Listening.{
  LocalListeningSocket, bind_status, open_and_bind, create_socket_fd, listen_on, session, accept,
  destroy,
}

module _ {P : Trace → Type 0} ⦃i : Ignores P⦄ ⦃o : Os⦄ where
  bind_status-Stable : (fd port : ℕ) (r : Option Bytes) → Stable P (bind_status fd port r)
  unfolding bind_status
  bind_status-Stable fd port none = search effects depth 14
  bind_status-Stable fd port (some reason) = search effects depth 14

  open_and_bind-Stable : (port : ℕ) (fd : Fd) → Stable P (open_and_bind port fd)
  unfolding open_and_bind
  open_and_bind-Stable port none = search effects depth 14
  open_and_bind-Stable port (some fd) = search (effects, bind_status-Stable) depth 14

  create_socket_fd-Stable : (port : ℕ) → Stable P (create_socket_fd port)
  unfolding create_socket_fd
  create_socket_fd-Stable port = search (effects, open_and_bind-Stable) depth 14

  pub listen_on-Stable : (port : ℕ) → Stable P (listen_on port)
  unfolding listen_on
  listen_on-Stable port = search (effects, create_socket_fd-Stable) depth 14

  session-Stable :
      (creator : SocketCreator) (l : LocalListeningSocket) (fd : Option ℕ)
      → ((a : SocketAddressOrFileDescriptor) → Stable P (creator a))
      → Stable P (session creator l fd)
  unfolding session
  session-Stable creator l none created = search effects depth 14
  session-Stable creator l (some fd) created = search (effects, created) depth 14

  pub accept-Stable :
      (creator : SocketCreator) (l : LocalListeningSocket)
      → ((a : SocketAddressOrFileDescriptor) → Stable P (creator a))
      → Stable P (accept creator l)
  unfolding accept
  accept-Stable creator l created = search (effects, session-Stable) depth 14

  pub destroy-Stable : (l : LocalListeningSocket) → Stable P (destroy l)
  unfolding destroy
  destroy-Stable l = search effects depth 14

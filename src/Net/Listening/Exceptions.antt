-- ===== src/Net/Listening/Exceptions.antt =====
-- The member functions of `LocalListeningSocket` throw no `ConnectionException`.
use p2psc.Prelude.{ℕ, Option, none, some, Bytes}
use p2psc.Net.System.{Os}
use p2psc.Net.Objects.{SocketAddressOrFileDescriptor}
use p2psc.Net.Run.Throws.{IsPlain, Throws, throws_rules}
use p2psc.Net.Socket.{SocketCreator}
use p2psc.Net.Listening.{
  LocalListeningSocket, bind_status, open_and_bind, create_socket_fd, listen_on, session, accept,
  destroy, close,
}

module _ ⦃o : Os⦄ where
  bind_status-Throws : (fd port : ℕ) (r : Option Bytes) → Throws IsPlain (bind_status fd port r)
  unfolding bind_status
  bind_status-Throws fd port none = search throws_rules
  bind_status-Throws fd port (some reason) = search throws_rules

  open_and_bind-Throws : (port : ℕ) (fd : Option ℕ) → Throws IsPlain (open_and_bind port fd)
  unfolding open_and_bind
  open_and_bind-Throws port none = search throws_rules
  open_and_bind-Throws port (some fd) = search (throws_rules, bind_status-Throws) depth 14

  pub listen_on-Throws : (port : ℕ) → Throws IsPlain (listen_on port)
  unfolding listen_on create_socket_fd
  listen_on-Throws port = search (throws_rules, open_and_bind-Throws) depth 14

  pub destroy-Throws : (l : LocalListeningSocket) → Throws IsPlain (destroy l)
  unfolding destroy close
  destroy-Throws l = search throws_rules depth 14

  module _ (creator : SocketCreator)
      (created : (a : SocketAddressOrFileDescriptor) → Throws IsPlain (creator a)) where
    session-Throws :
        (l : LocalListeningSocket) (r : Option ℕ) → Throws IsPlain (session creator l r)
    unfolding session
    session-Throws l none = search throws_rules
    session-Throws l (some fd) = search (throws_rules, created) depth 14

    pub accept-Throws : (l : LocalListeningSocket) → Throws IsPlain (accept creator l)
    unfolding accept
    accept-Throws l = search (throws_rules, session-Throws) depth 14

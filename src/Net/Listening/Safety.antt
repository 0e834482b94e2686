-- ===== src/Net/Listening/Safety.antt =====
-- The member functions of `LocalListeningSocket` fail no assertion on an open socket.
use p2psc.Prelude.{ℕ, ◌≡◌, refl, true, Option, none, some, Bytes, ap, ◌∙◌}
use p2psc.Net.System.{Os}
use p2psc.Net.Run.{World, ◌>>=◌}
use p2psc.Net.Run.Safe.{Assertion, Safe, Keeps, Safe-pure}
use p2psc.Net.Run.Safe.Compose.{Safe-bind, keeps_rules}
use p2psc.Net.Socket.{SocketCreator}
use p2psc.Net.Listening.{
  LocalListeningSocket, bind_status, open_and_bind, create_socket_fd, listen_on, session, accept,
  destroy, close,
}

module _ ⦃o : Os⦄ {P : Assertion} where
  bind_status-Keeps : (fd port : ℕ) (r : Option Bytes) → Keeps P (bind_status fd port r)
  unfolding bind_status
  bind_status-Keeps fd port none = search keeps_rules
  bind_status-Keeps fd port (some reason) = search keeps_rules

  open_and_bind-Keeps : (port : ℕ) (fd : Option ℕ) → Keeps P (open_and_bind port fd)
  unfolding open_and_bind
  open_and_bind-Keeps port none = search keeps_rules
  open_and_bind-Keeps port (some fd) = search (keeps_rules, bind_status-Keeps) depth 14

  -- A listening socket that has been created is open.
  pub listen_on-Safe : (port : ℕ) → Safe P (listen_on port) (λ l s c. P s c × (l.is_open ≡ true)) P
  unfolding listen_on create_socket_fd
  listen_on-Safe port =
      Safe-bind (λ fd. P) _ _ (search (keeps_rules, open_and_bind-Keeps) depth 14)
        λ fd. Safe-bind (λ u. P) _ _ (search keeps_rules) λ u. Safe-pure _ (λ s c h. (h, refl))

  pub destroy-Keeps : (l : LocalListeningSocket) → Keeps P (destroy l)
  unfolding destroy close
  destroy-Keeps l = search keeps_rules depth 14

-- On an open socket, `accept` is `session` on what the system answers.
pub accept-session :
    ⦃o : Os⦄ (creator : SocketCreator) (l : LocalListeningSocket) (r : Option ℕ) (w : World)
    → l.is_open ≡ true
    → o.accept w.trace (some l.sockfd) ≡ r
    → accept creator l w ≡ session creator l r w
unfolding accept ◌>>=◌
accept-session ⦃o = o⦄ creator l r w is_open e =
    let opened : accept creator l w ≡ session creator l (o.accept w.trace (some l.sockfd)) w =
      rw is_open refl in
    let answered : session creator l (o.accept w.trace (some l.sockfd)) w ≡ session creator l r w =
      ap (λ r. session creator l r w) e in
    opened ∙ answered

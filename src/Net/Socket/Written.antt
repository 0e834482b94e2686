-- ===== src/Net/Socket/Written.antt =====
-- Which messages the member functions of `Socket` hand to the system in full.
use p2psc.Prelude.{
  ℕ, ◌≡◌, refl, true, Bool-cases, Option-cases, inl, inr, Option, none, some, List, [], ◌∷◌, ◌++◌,
  Bytes, get_elem?, length, arith, ◌==◌,
}
use mathlib.Core.List.{append-nil}
use p2psc.Net.Objects.{Socket, Fd, SocketAddressOrFileDescriptor, from_address, from_descriptor}
use p2psc.Net.System.{Os, Read, bytes, failed}
use p2psc.Net.Run.{World, Outcome, ok, ◌>>=◌}
use p2psc.Net.Run.Written.{whole, Quiet, Writes, Quiet-received, Quiet-bind, quiet_rules}
use p2psc.Net.Socket.{
  check_is_open, send, receive_loop, receive, create_socket, socket_from_address,
  socket_from_descriptor, connect_socket, connect_status, note_opened,
}

-- What `send` has handed over, by how it ended.
unfoldable pub taken : {A : Type 0} → Outcome A → Bytes → List Bytes
taken (ok a) message = message ∷ []
taken _ message = []

module _ ⦃o : Os⦄ where
  send-open :
      (p : ℕ) (s : Socket) (message : Bytes) (w : World) (size : Option ℕ)
      → get_elem? w.sockets p ≡ some s
      → s.is_open ≡ true
      → o.send_size w.trace s.sock_fd message ≡ size
      → whole (send p message w).1.trace ≡ whole w.trace ++ taken (send p message w).0 message
  unfolding send ◌>>=◌ check_is_open taken
  send-open p s message w none at is_open e =
      ground (arith, at, is_open, e, append-nil (whole w.trace))
  send-open p s message w (some n) at is_open e = elim (Bool-cases (n == length message)) [
    | inl same ↦ ground (arith, at, is_open, e, same)
    | inr other ↦ ground (arith, at, is_open, e, other, append-nil (whole w.trace))
  ]

  -- A `send` that returns has handed its message over, and a `send` that ends otherwise nothing.
  pub send-whole :
      (p : ℕ) (message : Bytes) (w : World)
      → whole (send p message w).1.trace ≡ whole w.trace ++ taken (send p message w).0 message
  unfolding send ◌>>=◌ check_is_open taken
  send-whole p message w = elim (Option-cases (get_elem? w.sockets p)) [
    | inl missing ↦ ground (arith, missing, append-nil (whole w.trace))
    | inr (s, at) ↦ elim (Bool-cases s.is_open) [
      | inl is_open ↦ send-open p s message w _ at is_open refl
      | inr is_closed ↦ ground (arith, at, is_closed, append-nil (whole w.trace))
    ]
  ]

  pub send-Writes : (p : ℕ) (message : Bytes) → Writes (send p message) (λ l. l ≡ message ∷ [])
  unfolding taken
  send-Writes p message = record {
    after =
        λ w a e. (taken (send p message w).0 message, send-whole p message w, ground (arith, e));
  }

  receive_loop-Quiet : (fd : Fd) (reads : List Read) (d : Bytes) → Quiet (receive_loop fd reads d)
  unfolding receive_loop
  receive_loop-Quiet fd [] d = search quiet_rules
  receive_loop-Quiet fd (failed r ∷ reads) d = search quiet_rules
  receive_loop-Quiet fd (bytes b c ∷ reads) d =
      Quiet-bind _ _ (Quiet-received fd b) λ _. search (quiet_rules, receive_loop-Quiet fd reads)

  pub receive-Quiet : (p : ℕ) → Quiet (receive p)
  unfolding receive check_is_open
  receive-Quiet p = search (quiet_rules, receive_loop-Quiet) depth 14

  connect_status-Quiet : (s : Socket) (r : Option Bytes) → Quiet (connect_status s r)
  unfolding connect_status
  connect_status-Quiet s none = search quiet_rules
  connect_status-Quiet s (some reason) = search quiet_rules

  connect_socket-Quiet : (s : Socket) → Quiet (connect_socket s)
  unfolding connect_socket
  connect_socket-Quiet s = search (quiet_rules, connect_status-Quiet) depth 14

  note_opened-Quiet : (fd : Fd) → Quiet (note_opened fd)
  unfolding note_opened
  note_opened-Quiet none = search quiet_rules
  note_opened-Quiet (some fd) = search quiet_rules

  pub create_socket-Quiet : (a : SocketAddressOrFileDescriptor) → Quiet (create_socket a)
  unfolding create_socket socket_from_address socket_from_descriptor
  create_socket-Quiet (from_address a) =
      search (quiet_rules, note_opened-Quiet, connect_socket-Quiet) depth 20
  create_socket-Quiet (from_descriptor fd) = search quiet_rules depth 14

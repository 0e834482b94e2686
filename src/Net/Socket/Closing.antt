-- ===== src/Net/Socket/Closing.antt =====
-- What the member functions of `Socket` do on a socket that is closed, and when `send` returns.
use p2psc.Prelude.{
  ℕ, zero, suc, ◌≡◌, refl, sym, ap, subst, ◌≢◌, ◌∙◌, ◌↔◌, true, false, Bool-cases, Option-cases,
  inl, inr, some, none, List, [], ◌∷◌, Bytes, codes, get_elem?, set, length, arith, Option,
}
use p2psc.Errors.{socket_exception}
use p2psc.Net.Objects.{Socket}
use p2psc.Net.System.{Os}
use p2psc.Net.Run.{World, ok, throw, aborted, ◌>>=◌}
use p2psc.Net.Socket.{send, receive, close, destroy, check_is_open, close_status}

get_elem?-set :
    {A : Type 0} (l : List A) (i : ℕ) (u v : A)
    → get_elem? l i ≡ some u
    → get_elem? (set l i v) i ≡ some v
get_elem?-set [] i u v h = cc
get_elem?-set (x ∷ l) zero u v h = refl
get_elem?-set (x ∷ l) (suc i) u v h = get_elem?-set l i u v h

ok-ne-aborted : ok tt ≢ aborted
ok-ne-aborted e = cc

-- The object is there, and it is closed.
abbrev pub IsClosed : ℕ → World → Type 0
IsClosed p w = (s : Socket) × (get_elem? w.sockets p ≡ some s) × (s.is_open ≡ false)

module _ ⦃o : Os⦄ where
  -- Every use throws without a call of the system, the destructor does nothing, and a second
  -- `close` is a failed assertion.
  abbrev pub IsDead : ℕ → World → Type 0
  IsDead p w =
      ((message : Bytes)
        → send p message w ≡ (throw (socket_exception (codes "Socket is closed")), w))
      × (receive p w ≡ (throw (socket_exception (codes "Socket is closed")), w))
      × (destroy p w ≡ (ok tt, w))
      × (close p w ≡ (aborted, w))

  IsClosed→IsDead : (p : ℕ) (w : World) → IsClosed p w → IsDead p w
  unfolding send receive destroy close ◌>>=◌ check_is_open
  IsClosed→IsDead p w (s, at, is_closed) = (
    (λ message. ground (arith, at, is_closed)),
    ground (arith, at, is_closed),
    ground (arith, at, is_closed),
    ground (arith, at, is_closed),
  )

  close_status-IsClosed :
      (p : ℕ) (s : Socket) (r : Option Bytes) (w : World)
      → get_elem? w.sockets p ≡ some s
      → (close_status p s r w).0 ≡ ok tt
      → IsClosed p (close_status p s r w).1
  unfolding close_status ◌>>=◌
  close_status-IsClosed p s none w at h =
      (record s { is_open = false }, get_elem?-set w.sockets p s _ at, refl)
  close_status-IsClosed p s (some reason) w at h = cc

  close-eq :
      (p : ℕ) (s : Socket) (w : World)
      → get_elem? w.sockets p ≡ some s
      → s.is_open ≡ true
      → close p w ≡ close_status p s (o.close w.trace s.sock_fd) w
  unfolding close ◌>>=◌
  close-eq p s w at is_open = ground (arith, at, is_open)

  close-missing : (p : ℕ) (w : World) → get_elem? w.sockets p ≡ none → (close p w).0 ≢ ok tt
  unfolding close ◌>>=◌
  close-missing p w e h = ground (arith, e, h)

  close-IsClosed : (p : ℕ) (w : World) → (close p w).0 ≡ ok tt → IsClosed p (close p w).1
  close-IsClosed p w h = elim (Option-cases (get_elem? w.sockets p)) [
    | inl e ↦ absurd (close-missing p w e h)
    | inr (s, at) ↦ elim (Bool-cases s.is_open) [
      | inl is_open ↦
          let e = close-eq p s w at is_open in
          subst (λ x. IsClosed p x.1) (sym e)
            (close_status-IsClosed p s (o.close w.trace s.sock_fd) w at (sym (ap (λ x. x.0) e) ∙ h))
      | inr is_closed ↦
          let (sends, receives, destroys, aborts) = IsClosed→IsDead p w (s, at, is_closed) in
          absurd (ok-ne-aborted (sym h ∙ ap (λ x. x.0) aborts))
    ]
  ]

  -- After a `close` that returned, the socket in that state is never used again: `send`
  -- and `receive` throw and the destructor returns, none of them with a call of the system, and
  -- another `close` is a failed assertion.
  pub close-IsDead : (p : ℕ) (w : World) → (close p w).0 ≡ ok tt → IsDead p (close p w).1
  close-IsDead p w h = IsClosed→IsDead p (close p w).1 (close-IsClosed p w h)

  send-length :
      (p : ℕ) (s : Socket) (message : Bytes) (w : World) (size : Option ℕ)
      → get_elem? w.sockets p ≡ some s
      → s.is_open ≡ true
      → o.send_size w.trace s.sock_fd message ≡ size
      → (send p message w).0 ≡ ok tt
      → size ≡ some (length message)
  unfolding send ◌>>=◌ check_is_open
  send-length p s message w none at is_open e h = ground (arith, at, is_open, e, h)
  send-length p s message w (some n) at is_open e h = ground (arith, at, is_open, e, h)

  -- `send` on an existing socket returns exactly when the socket is open and the system took the
  -- whole message in one call.
  pub send_iff :
      (p : ℕ) (s : Socket) (message : Bytes) (w : World)
      → get_elem? w.sockets p ≡ some s
      → ((send p message w).0 ≡ ok tt)
        ↔ ((s.is_open ≡ true) × (o.send_size w.trace s.sock_fd message ≡ some (length message)))
  unfolding send ◌>>=◌ check_is_open
  send_iff p s message w at = (
    (λ h. elim (Bool-cases s.is_open) [
      | inl is_open ↦ (is_open, send-length p s message w _ at is_open refl h)
      | inr is_closed ↦ absurd (ground (arith, at, is_closed, h))
    ]),
    (λ x. ground (arith, at, x.0, x.1)),
  )

-- ===== src/Net/Socket/Receive.antt =====
-- Which message `Socket::receive` returns for the reads that it meets.
use mathlib.Core.List.{append_assoc}
use p2psc.Prelude.{
  ℕ, ◌<◌, ◌≡◌, refl, ap, ◌∙◌, sym, subst, ◌≢◌, ◌⊎◌, inl, inr, ◌↔◌, List, [], ◌∷◌, ◌++◌, Bytes,
  length, arith, ◌==◌, true, not, ◌&&◌, Bool-cases, some, get_elem?,
}
use p2psc.Net.Objects.{Fd, Socket}
use p2psc.Net.System.{Os, Read, bytes, failed, received}
use p2psc.Net.Run.{World, ok, ◌>>=◌}
use p2psc.Net.Socket.{recv_buf_size, receive_loop, receive}

-- A full buffer with more behind it is followed by another read.
abbrev Continues : Bytes → ℕ → Type 0
Continues buffer count = (length buffer ≡ recv_buf_size) × (count ≢ 0)

abbrev Ends : Bytes → ℕ → Type 0
Ends buffer count = (0 < length buffer) × ((length buffer ≢ recv_buf_size) ⊎ (count ≡ 0))

-- The message is the bytes of some full reads and of the one that ends it.
abbrev pub Assembles : List Read → Bytes → Type 0
Assembles [] message = ⊥
Assembles (failed reason ∷ reads) message = ⊥
Assembles (bytes buffer count ∷ reads) message =
    (Ends buffer count × (message ≡ buffer))
    ⊎ (Continues buffer count
        × ((rest : Bytes) × (message ≡ buffer ++ rest) × Assembles reads rest))

module _ ⦃o : Os⦄ where
  assembled :
      (fd : Fd) (reads : List Read) (before message : Bytes) (w : World)
      → Assembles reads message
      → (receive_loop fd reads before w).0 ≡ ok (before ++ message)
  unfolding receive_loop ◌>>=◌
  assembled fd [] before message w h = absurd h
  assembled fd (failed reason ∷ reads) before message w h = absurd h
  assembled fd (bytes buffer count ∷ reads) before message w (inl (e, p)) =
      ground (arith, ap (◌++◌ before) p)
  assembled fd (bytes buffer count ∷ reads) before message w (inr (c, (rest, p, a))) =
      let w' : World = record w { trace = received fd buffer ∷ w.trace } in
      ground (
        arith,
        assembled fd reads (before ++ buffer) rest w' a,
        append_assoc before buffer rest,
        ap (◌++◌ before) p,
      )

  returned :
      (fd : Fd) (reads : List Read) (before result : Bytes) (w : World)
      → (receive_loop fd reads before w).0 ≡ ok result
      → (message : Bytes) × (result ≡ before ++ message) × Assembles reads message
  unfolding receive_loop ◌>>=◌
  returned fd [] before result w h = cc
  returned fd (failed reason ∷ reads) before result w h = cc
  returned fd (bytes buffer count ∷ reads) before result w h =
      elim (Bool-cases (length buffer == recv_buf_size && not (count == 0))) [
        | inl more ↦
            let (rest, p, a) =
              returned fd reads (before ++ buffer) result
                (record w { trace = received fd buffer ∷ w.trace }) (rw more at h) in
            (
              buffer ++ rest,
              p ∙ append_assoc before buffer rest,
              inr (ground arith, (rest, refl, a)),
            )
        | inr last ↦ (buffer, ground arith, inl (ground arith, refl))
      ]

  receive-open :
      (p : ℕ) (s : Socket) (w : World)
      → get_elem? w.sockets p ≡ some s
      → s.is_open ≡ true
      → receive p w ≡ receive_loop s.sock_fd (o.reads w.trace s.sock_fd) [] w
  unfolding receive ◌>>=◌
  receive-open p s w at is_open = ground arith

  -- On an open socket, `receive` returns a message exactly when the reads assemble it: full reads
  -- with bytes left behind them, and then one read that is not empty, and is short or the last.
  pub receive_iff :
      (p : ℕ) (s : Socket) (w : World) (message : Bytes)
      → get_elem? w.sockets p ≡ some s
      → s.is_open ≡ true
      → ((receive p w).0 ≡ ok message) ↔ Assembles (o.reads w.trace s.sock_fd) message
  receive_iff p s w message at is_open = (
    (λ h.
        let (m, q, a) =
          returned s.sock_fd (o.reads w.trace s.sock_fd) [] message w
            (rw (receive-open p s w at is_open) at h) in
        subst (Assembles (o.reads w.trace s.sock_fd)) (sym q) a),
    (λ a.
        rw (receive-open p s w at is_open)
          (assembled s.sock_fd (o.reads w.trace s.sock_fd) [] message w a)),
  )

-- ===== src/Net/Socket/Safety.antt =====
-- The member functions of `Socket` fail no assertion and follow no null pointer.
use p2psc.Prelude.{
  ℕ, zero, suc, ◌<◌, ◌≡◌, refl, ap, true, false, not, Option, none, some, List, [], ◌∷◌, ◌++◌,
  Bytes, length, get_elem?, set, arith,
}
use p2psc.Net.Objects.{
  Socket, SocketPtr, Fd, SocketAddress, SocketAddressOrFileDescriptor, from_address,
  from_descriptor, MediatorConnection,
}
use p2psc.Net.System.{Os, Read, bytes, failed, closed}
use p2psc.Net.Run.{Run, assert, ask, ◌>>◌, get_socket, put_socket, make_shared, ◌>>=◌}
use p2psc.Net.Run.Safe.{
  Assertion, Safe, Keeps, IsPointer, Safe-pure, Safe-assert, Safe-put_socket, Safe-weaken,
  Safe-raise, Safe-assume, Keeps-ask,
}
use p2psc.Net.Run.Safe.Compose.{
  Safe-make_shared, Safe-get_socket, Safe-bind, Keeps-act, keeps_rules,
}
use p2psc.Net.Socket.{
  connect_status, connect_socket, note_opened, socket_from_address, socket_from_descriptor, destroy,
  check_is_open, send, receive_loop, receive, close_status, close, get_socket_address,
  create_socket,
}

pub length-set : (s : List Socket) (p : ℕ) (v : Socket) → length (set s p v) ≡ length s
length-set [] p v = refl
length-set (x ∷ s) zero v = refl
length-set (x ∷ s) (suc p) v = ap suc (length-set s p v)

pub lt-IsPointer : (p : ℕ) (s : List Socket) → p < length s → IsPointer p s
lt-IsPointer p [] h = absurd (omega arith)
lt-IsPointer zero (x ∷ s) h = (x, refl)
lt-IsPointer (suc p) (x ∷ s) h = lt-IsPointer p s (omega arith)

-- A null pointer, or one behind which there is an object.
abbrev pub IsValid : SocketPtr → List Socket → Type 0
IsValid none s = Unit {0}
IsValid (some p) s = p < length s

-- A pointer behind which there is an object.
abbrev pub HasObject : SocketPtr → List Socket → Type 0
HasObject none s = ⊥
HasObject (some p) s = p < length s

-- What later sockets and what closing a socket leave true.
pub record IsLasting (P : Assertion) : Type 0 where
  pub append : (s : List Socket) (c : MediatorConnection) (v : Socket) → P s c → P (s ++ (v ∷ [])) c
  pub set_lem :
      (s : List Socket) (c : MediatorConnection) (p : ℕ) (v : Socket) → P s c → P (set s p v) c

module _ ⦃o : Os⦄ {P : Assertion} (p : ℕ)
    (pointer : (s : List Socket) (c : MediatorConnection) → P s c → IsPointer p s) where
  Keeps-object :
      {A : Type 0} (f : Socket → Run A)
      → ((v : Socket) → Keeps P (f v))
      → Keeps P (get_socket p >>= f)
  Keeps-object f kf =
      Safe-bind (λ v s c. P s c × (get_elem? s p ≡ some v)) (get_socket p) f
        (Safe-get_socket p pointer)
        λ v. Safe-weaken (f v) (λ s c h. h.0) (λ a s c h. h) (λ s c h. h) (kf v)

  check_is_open-Keeps : (v : Socket) → Keeps P (check_is_open v)
  unfolding check_is_open
  check_is_open-Keeps v = search keeps_rules

  pub send-Keeps : (message : Bytes) → Keeps P (send p message)
  unfolding send
  send-Keeps message = Keeps-object _ λ v. search (keeps_rules, check_is_open-Keeps) depth 14

  receive_loop-Keeps : (fd : Fd) (reads : List Read) (d : Bytes) → Keeps P (receive_loop fd reads d)
  unfolding receive_loop
  receive_loop-Keeps fd [] d = search keeps_rules
  receive_loop-Keeps fd (failed r ∷ reads) d = search keeps_rules
  receive_loop-Keeps fd (bytes b c ∷ reads) d =
      search (keeps_rules, receive_loop-Keeps fd reads) depth 14

  pub receive-Keeps : Keeps P (receive p)
  unfolding receive
  receive-Keeps =
      Keeps-object _ λ v. search (keeps_rules, check_is_open-Keeps, receive_loop-Keeps) depth 14

  pub get_socket_address-Keeps : Keeps P (get_socket_address p)
  unfolding get_socket_address
  get_socket_address-Keeps = Keeps-object _ λ v. search keeps_rules

  module _ (lasting : IsLasting P) where
    put_socket-Keeps : (v : Socket) → Keeps P (put_socket p v)
    put_socket-Keeps v = Safe-put_socket p v (λ s c h. lasting.set_lem s c p v h)

    pub destroy-Keeps : Keeps P (destroy p)
    unfolding destroy
    destroy-Keeps = Keeps-object _ λ v. search (keeps_rules, put_socket-Keeps) depth 14

  -- An open socket can be closed.
  close_status-Safe :
      {Q : Assertion} (v : Socket) (r : Option Bytes)
      → ((s : List Socket) (c : MediatorConnection) (v' : Socket) → P s c → Q (set s p v') c)
      → ((s : List Socket) (c : MediatorConnection) → P s c → Q s c)
      → Safe P (close_status p v r) (λ u. Q) Q
  unfolding close_status
  close_status-Safe {Q} v none change same =
      Safe-bind (λ u. P) _ _
        (Safe-weaken _ (λ s c h. h) (λ u s c h. h) same (Keeps-act (closed v.sock_fd)))
        λ u. Safe-put_socket p _ (λ s c h. change s c _ h)
  close_status-Safe v (some reason) change same = Safe-raise _ same

-- There is an open socket behind the pointer.
abbrev pub IsOpen : ℕ → List Socket → Type 0
IsOpen p s = (v : Socket) × (get_elem? s p ≡ some v) × (v.is_open ≡ true)

module _ ⦃o : Os⦄ {P Q : Assertion} (p : ℕ)
    (is_open : (s : List Socket) (c : MediatorConnection) → P s c → IsOpen p s)
    (change : (s : List Socket) (c : MediatorConnection) (v : Socket) → P s c → Q (set s p v) c)
    (same : (s : List Socket) (c : MediatorConnection) → P s c → Q s c) where
  close_rest-Safe :
      (v : Socket)
      → v.is_open ≡ true
      → Safe P
          (do assert v.is_open; r ← ask (λ t. o.close t v.sock_fd); close_status p v r)
          (λ u. Q)
          Q
  close_rest-Safe v e =
      Safe-bind (λ u. P) _ _ (Safe-assert v.is_open e (λ s c h. h))
        λ u.
          Safe-bind (λ r. P) _ _ (Safe-weaken _ (λ s c h. h) (λ a s c h. h) same (Keeps-ask _))
            λ r.
              close_status-Safe p (λ s c h. let (v, at, e) = is_open s c h in (v, at)) v r change
                same

  pub close-Safe : Safe P (close p) (λ u. Q) Q
  unfolding close
  close-Safe =
      Safe-bind (λ v s c. P s c × (get_elem? s p ≡ some v)) (get_socket p) _
        (Safe-weaken _ (λ s c h. h) (λ a s c h. h) same
          (Safe-get_socket p (λ s c h. let (v, at, e) = is_open s c h in (v, at))))
        λ v.
          Safe-assume _
            (λ s c h.
              let (v', at, e) = is_open s c h.0 in
              let known : v.is_open ≡ true = ground (arith, at, e, h.1) in known)
            λ e. Safe-weaken _ (λ s c h. h.0) (λ a s c h. h) (λ s c h. h) (close_rest-Safe v e)

get_elem?-append : (s : List Socket) (v : Socket) → get_elem? (s ++ (v ∷ [])) (length s) ≡ some v
get_elem?-append [] v = refl
get_elem?-append (x ∷ s) v = get_elem?-append s v

-- A pointer behind which there is an open socket.
abbrev pub IsConnected : SocketPtr → List Socket → Type 0
IsConnected none s = ⊥
IsConnected (some p) s = IsOpen p s

module _ ⦃o : Os⦄ {P : Assertion} (lasting : IsLasting P) where
  connect_status-Safe :
      (v : Socket) (r : Option Bytes)
      → Safe P (connect_status v r) (λ v s c. P s c × (v.is_open ≡ true)) P
  unfolding connect_status
  connect_status-Safe v none =
      Safe-bind (λ u. P) _ _ (Keeps-act _) λ u. Safe-pure _ (λ s c h. (h, refl))
  connect_status-Safe v (some reason) = Safe-raise _ (λ s c h. h)

  connect_socket-Safe :
      (v : Socket)
      → v.is_open ≡ false
      → Safe P (connect_socket v) (λ v s c. P s c × (v.is_open ≡ true)) P
  unfolding connect_socket
  connect_socket-Safe v e =
      Safe-bind (λ u. P) _ _ (Safe-assert (not v.is_open) (ap not e) (λ s c h. h))
        λ u. Safe-bind (λ r. P) _ _ (Keeps-ask _) λ r. connect_status-Safe v r

  note_opened-Keeps : (fd : Fd) → Keeps P (note_opened fd)
  unfolding note_opened
  note_opened-Keeps none = search keeps_rules
  note_opened-Keeps (some fd) = search keeps_rules

  make_shared-Safe :
      (v : Socket) → v.is_open ≡ true → Safe P (make_shared v) (λ q s c. P s c × IsOpen q s) P
  make_shared-Safe v e =
      Safe-make_shared v (λ s c h. (lasting.append s c v h, (v, get_elem?-append s v, e)))

  socket_from_address-Safe :
      (a : SocketAddress) → Safe P (socket_from_address a) (λ q s c. P s c × IsOpen q s) P
  unfolding socket_from_address
  socket_from_address-Safe a =
      Safe-bind (λ fd. P) _ _ (search keeps_rules)
        λ fd.
          Safe-bind (λ u. P) _ _ (note_opened-Keeps fd)
            λ u.
              Safe-bind (λ v s c. P s c × (v.is_open ≡ true)) _ _ (connect_socket-Safe _ refl)
                λ v.
                  Safe-assume _ (λ s c h. h.1)
                    λ e.
                      Safe-weaken _ (λ s c h. h.0) (λ a s c h. h) (λ s c h. h)
                        (make_shared-Safe v e)

  socket_from_descriptor-Safe :
      (fd : ℕ) → Safe P (socket_from_descriptor fd) (λ q s c. P s c × IsOpen q s) P
  unfolding socket_from_descriptor
  socket_from_descriptor-Safe fd =
      Safe-bind (λ a. P) _ _ (search keeps_rules) λ a. make_shared-Safe _ refl

  -- The library's own socket creator returns an open socket if it returns.
  pub create_socket-Safe :
      (a : SocketAddressOrFileDescriptor)
      → Safe P (create_socket a) (λ q s c. P s c × IsConnected q s) P
  unfolding create_socket
  create_socket-Safe (from_address a) =
      Safe-bind (λ q s c. P s c × IsOpen q s) _ _ (socket_from_address-Safe a)
        λ q. Safe-pure (some q) (λ s c h. h)
  create_socket-Safe (from_descriptor fd) =
      Safe-bind (λ q s c. P s c × IsOpen q s) _ _ (socket_from_descriptor-Safe fd)
        λ q. Safe-pure (some q) (λ s c h. h)

pub open-lt : (p : ℕ) (s : List Socket) (v : Socket) → get_elem? s p ≡ some v → p < length s
open-lt p [] v at = cc
open-lt zero (x ∷ s) v at = omega arith
open-lt (suc p) (x ∷ s) v at = omega (arith, open-lt p s v at)

pub IsConnected-HasObject : (q : SocketPtr) (s : List Socket) → IsConnected q s → HasObject q s
IsConnected-HasObject none s h = h
IsConnected-HasObject (some q) s (v, at, e) = open-lt q s v at

-- ===== src/Net/System.antt =====
-- The operating system as a parameter. What a call returns may depend on all that the thread did
-- before, so an `Os` stands for any behaviour of the network, of the peers and of the clock.
use p2psc.Prelude.{ℕ, Bool, Option, List, Bytes}
use p2psc.Errors.{Error}
use p2psc.Net.Objects.{SocketAddress, SocketPtr, Fd}

-- What a thread did, newest first. `sent` has the number of bytes that the system took (`none`
-- for -1), `received` is one call of `read`, and `called_back` is a call of the user's function.
pub data Action : Type 0 where
  opened : ℕ → Action
  connected : Fd → SocketAddress → Action
  sent : Fd → Bytes → Option ℕ → Action
  received : Fd → Bytes → Action
  closed : Fd → Action
  bound : Fd → ℕ → Action
  listened : Fd → Action
  accepted : Fd → ℕ → Action
  slept : ℕ → Action
  called_back : Error → SocketPtr → Action

abbrev pub Trace : Type 0
Trace = List Action

-- One `read` of at most `RECV_BUF_SIZE` bytes: what came, with what `FIONREAD` counts after it, or
-- -1 with `strerror(errno)`.
pub data Read : Type 0 where
  bytes : Bytes → ℕ → Read
  failed : Bytes → Read

-- A call that fails answers with `strerror(errno)`. `reads` are the reads that a call of
-- `Socket::receive` would meet until one blocks for ever.
pub record Os : Type 0 where
  pub socket : Trace → Fd
  pub inet_pton : Bytes → Bytes
  pub connect : Trace → Fd → SocketAddress → Option Bytes
  pub getpeername : Trace → ℕ → SocketAddress
  pub send_size : Trace → Fd → Bytes → Option ℕ
  pub send_errno : Trace → Fd → Bytes → Option Bytes
  pub reads : Trace → Fd → List Read
  pub close : Trace → Fd → Option Bytes
  pub reuse_address : Trace → Fd → Bool
  pub bind : Trace → Fd → ℕ → Option Bytes
  pub getsockname_port : Trace → Fd → ℕ
  pub accept : Trace → Fd → Option ℕ
  pub time : Trace → ℕ
  -- the first `rand()` after `srand(seed)`
  pub rand : ℕ → ℕ
  -- the random padding of the next encryption
  pub padding : Trace → ℕ

-- ===== src/Net/Objects.antt =====
-- The objects that a connection attempt keeps: include/p2psc/socket/socket_address.h, socket.h,
-- peer.h, punched_peer.h, mediator.h and the members of src/mediator_connection.h.
use p2psc.Prelude.{ℕ, Bool, ◌&&◌, Option, Bytes, codes, bytes_eq, ◌==◌, to_string, ◌++◌}
use p2psc.Crypto.Key.{PublicKey}
use p2psc.Message.Payloads.Mediation.{PeerDisconnect}

pub record SocketAddress : Type 0 where
  pub ip : Bytes
  pub port : ℕ  -- std::uint16_t

abbrev pub local_ip : Bytes
local_ip = codes "127.0.0.1"

-- `operator==`
unfoldable pub address_eq : SocketAddress → SocketAddress → Bool
address_eq address1 address2 = address1.port == address2.port && bytes_eq address1.ip address2.ip

-- `operator<<`
unfoldable pub address_string : SocketAddress → Bytes
address_string address = address.ip ++ (codes ":" ++ to_string address.port)

-- `none` is the descriptor -1.
abbrev pub Fd : Type 0
Fd = Option ℕ

pub record Socket : Type 0 where
  pub sock_fd : Fd
  pub is_open : Bool
  pub address : SocketAddress

pub record Peer : Type 0 where
  pub public_key : PublicKey

pub record PunchedPeer : Type 0 where
  pub peer : Peer
  pub address : SocketAddress
  pub version : ℕ  -- std::uint8_t

pub record Mediator : Type 0 where
  pub socket_address : SocketAddress

-- A `std::shared_ptr<Socket>`: the place of the object, or `none` for a null pointer.
abbrev pub SocketPtr : Type 0
SocketPtr = Option ℕ

-- The argument of a `SocketCreator`.
pub data SocketAddressOrFileDescriptor : Type 0 where
  from_address : SocketAddress → SocketAddressOrFileDescriptor
  from_descriptor : ℕ → SocketAddressOrFileDescriptor

pub record MediatorConnection : Type 0 where
  pub mediator : Mediator
  pub connected : Bool
  pub punched_peer : Option PunchedPeer
  pub peer_disconnect : Option PeerDisconnect
  pub socket : SocketPtr

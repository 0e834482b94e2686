-- ===== src/Net/Messages/Transfer.antt =====
-- A message from one side of a connection to the other.
use p2psc.Net.Objects.{Socket}
use p2psc.Net.Socket

-- ===== src/Lib.antt =====
-- p2psc makes a socket between two peers with the help of a Mediator that both can reach. One call of
-- `p2psc::connect` starts one attempt in a thread of its own. The attempt advertises itself to the
-- Mediator and proves its identity there (`MediatorConnection`), is told either the address of the
-- other peer or the port to listen on, connects as client or as peer, runs the peer handshake in
-- which both sides prove their identities, and reports to the user's callback.
--
-- How the files correspond to the code:
-- - Prelude: names of the standard library, Boolean tests, lists with native lengths, byte strings.
-- - Errors: include/p2psc/error.h and the exceptions, with a result type for pure code that throws.
-- - Message: include/p2psc/message. Types has the numbers and names of the types, Codec what the
--   headers use of spotify-json, Format the message formats with `encode` and `decode`, Payloads the
--   eleven structs. RoundTrip and Names have their theorems.
-- - Crypto: src/crypto/rsa.cpp (Rsa) and src/key (Key), over OpenSSL and vendor/base64 (OpenSsl).
--   Files has `write_to_file` over the contents of the files. RoundTrip has theorems.
-- - Net: Objects has the value types and the members of the classes, System the operating system,
--   Run the actions of a thread, Socket src/socket/socket.cpp, Listening
--   src/socket/local_listening_socket.cpp, Messages include/p2psc/message/message_util.h. The child
--   modules Silence, Bounds, Safety and Exceptions follow the calls of the callback, the messages sent,
--   the assertions and null pointers, and the types of the exceptions. Written is about the messages
--   that the system has taken in full, Delivery and Transfer about messages that arrive, Keeping about
--   what leaves the thread's `MediatorConnection` alone.
-- - Mediation: src/mediator_connection.cpp. Retries, Replies and Loop are about its loop, Completion
--   about a Mediator that keeps to the protocol, Sent about the messages that are sent, Closing about
--   what the second half of an attempt needs of it.
-- - Connection: src/connection.cpp and include/p2psc.h, with Callback, Bounds, Faults, Safety and
--   Kinds, and of the peer handshake Authentication, Completion, Agreement (the two sides against one
--   another) and Exchange (what they send). Attempt puts the parts of an attempt together.
-- - Log: include/p2psc/log.h, the text of one record.
-- - Integration: the integration tests. Store is integration/src/util/key_to_identifier_store.cpp;
--   Handle and FakeMediator are the Mediator of integration/src/util/fake_mediator.cpp, whose handler
--   threads run in any order (FakeMediator/System); Steps, Provenance, Order and Asked are about these
--   orders, Introduction runs the library's handshake against it. StatefulSocket and Client are
--   integration/src/util/stateful_socket.cpp and client.cpp, ClientTest what the test cases of
--   integration/src/client_it.cpp look at.
-- - Examples: small libraries that keep the laws, a scripted network, runs and the theorems applied.
--
-- A thread's code is an action `Run A`: from a `World`, the trace of what the thread did with its
-- socket objects and its `MediatorConnection`, to an outcome and the next world. The outcomes are a
-- value, an exception, a failed `BOOST_ASSERT`, a null pointer that is followed, and a call that
-- never returns. `catch`, `on_exception` and `scoped` are the language's exception handlers and
-- destructors. A shared pointer to a socket is the socket's place in the list.
--
-- The operating system and the network are the record `Os`: what a call returns may depend on the
-- whole trace, so a theorem for every `Os` holds for every behaviour of the network, of the Mediator,
-- of the peer and of the clock. spotify-json, OpenSSL and base64 are records of functions, with
-- their documented behaviour as laws where a theorem needs it.
--
-- The handler of the tests' Mediator is cut into phases at the calls that wait: `receive`, `send`, the
-- two waits on a condition variable, and the calls that take a lock. What ends a wait is an `Input`,
-- and a step of the system runs one phase of one session. An exception in a handler ends the program.
-- A phase is one step, so that the two lists of messages, which the threads append to without a lock,
-- are changed one thread at a time. A wait on the store is cut at the same place as `await` of Store,
-- one turn of its loop for each wake.
--
-- Numbers are natural numbers; the widths of the members are in the codecs. The loop of
-- `MediatorConnection::connect` has the fuel `advertise_fuel`, 6, one round for each of its five
-- retries and one more; Connection.Bounds is about that. `receive` recurses on the list of
-- the reads that it would meet. `to_string` writes at most 20 digits, enough for 64 bits.
--
-- Not modelled: the calls of the log, the thread that `connect` detaches and the release of its own
-- pointer to the socket once the callback has returned, which closes the socket where the callback has
-- kept no copy; key generation by OpenSSL and `max_data_size` of src/crypto/rsa.h; the hash of an
-- address; vendor/base64 and OpenSSL themselves; the unit tests; the threads, pauses and null-pointer
-- assertions of the integration test cases; of the tests' Mediator the listening socket, the joining
-- of the threads and `await_shutdown`. The member `_quit_after` of the tests' Mediator starts with any
-- value.
mod Prelude
pub mod Errors
pub mod Log
pub mod Message
pub mod Crypto
pub mod Net
pub mod Mediation
pub mod Connection
pub mod Integration
pub mod Examples

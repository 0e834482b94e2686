-- ===== src/Examples/TransferWitnesses.antt =====
-- A message that one side sends and the other receives, at concrete arguments.
use p2psc.Prelude.{some, [], ◌∷◌, Bytes}
use p2psc.Message.Format.{message, encode}
use p2psc.Message.Payloads.Mediation.{PeerDisconnect, peer_disconnect_payload}
use p2psc.Net.System.{Os, bytes}
use p2psc.Net.Run.{World}
use p2psc.Net.Messages.{send_and_log}
use p2psc.Examples.Libraries.{toy_json}
use p2psc.Examples.Scripts.{scripted, ready}

abbrev told : PeerDisconnect
told = record { port = 5000 }

abbrev sender_os : Os
sender_os = scripted []

abbrev sent : World
sent = (send_and_log ⦃o = sender_os⦄ (some 0) (message told) ready).1

abbrev text : Bytes
unfolding toy_json encode message
text = encode (message told).format

abbrev receiver_os : Os
receiver_os = record (scripted []) { reads = λ t fd. bytes text 0 ∷ [] }

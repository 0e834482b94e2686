-- ===== src/Net/Messages/Written.antt =====
-- One message is handed to the system by `send_and_log`, and none by `receive_and_log`.
use p2psc.Prelude.{◌≡◌, sym, ap, ◌∙◌, [], ◌∷◌, ◌++◌, Bytes}
use p2psc.Message.Codec.{JsonLibrary}
use p2psc.Message.Format.{Payload, Message, message, encode}
use p2psc.Net.Objects.{SocketPtr}
use p2psc.Net.System.{Os}
use p2psc.Net.Run.{World}
use p2psc.Net.Run.Written.{
  whole, Quiet, Writes, Quiet-whole, Quiet-not_null, Writes-rest, quiet_rules,
}
use p2psc.Net.Socket.Written.{send-Writes, receive-Quiet}
use p2psc.Net.Messages.Delivery.{Sends, Arrives}
use p2psc.Net.Messages.{send_raw, receive_raw, send_and_log, receive_and_log}

module _ ⦃o : Os⦄ (socket : SocketPtr) where
  send_raw-Writes : (raw : Bytes) → Writes (send_raw socket raw) (λ l. l ≡ raw ∷ [])
  unfolding send_raw
  send_raw-Writes raw = Writes-rest _ _ (Quiet-not_null socket) λ p. send-Writes p raw

  pub receive_raw-Quiet : Quiet (receive_raw socket)
  unfolding receive_raw
  receive_raw-Quiet = search (quiet_rules, receive-Quiet) depth 14

module _ {T : Type 0} ⦃m : Payload T⦄ ⦃j : JsonLibrary⦄ ⦃o : Os⦄ (socket : SocketPtr) where
  pub send_and_log-Writes :
      (x : Message T) → Writes (send_and_log socket x) (λ l. l ≡ encode x.format ∷ [])
  unfolding send_and_log
  send_and_log-Writes x = send_raw-Writes socket (encode x.format)

  pub receive_and_log-Quiet : Quiet (receive_and_log {T = T} socket)
  unfolding receive_and_log
  receive_and_log-Quiet = search (quiet_rules, receive_raw-Quiet) depth 14

  pub sent-whole :
      (payload : T) (w w' : World)
      → Sends socket payload w w'
      → whole w'.trace ≡ whole w.trace ++ (encode (message payload).format ∷ [])
  sent-whole payload w w' sends =
      let (l, added, one) =
        (send_and_log-Writes (message payload)).after w tt (ap (λ x. x.0) sends) in
      sym (ap (λ x. whole x.1.trace) sends) ∙ added ∙ ap (λ l. whole w.trace ++ l) one

  pub arrived-whole :
      (payload : T) (w w' : World) → Arrives socket payload w w' → whole w'.trace ≡ whole w.trace
  arrived-whole payload w w' arrives =
      Quiet-whole (receive_raw socket) w w' _ (receive_raw-Quiet socket) arrives.0

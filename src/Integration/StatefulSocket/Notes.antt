-- ===== src/Integration/StatefulSocket/Notes.antt =====
-- What a `StatefulSocket` has noted after any calls of its member functions.
use p2psc.Prelude.{◌≡◌, refl, sym, ap, ◌∙◌, List, [], ◌∷◌, ◌++◌, Bytes}
use mathlib.Core.List.{append_assoc, append-nil}
use p2psc.Net.System.{Os}
use p2psc.Net.Run.{World, Outcome, ok, throw, aborted, crashed, blocked, stuck}
use p2psc.Net.Run.Written.{whole}
use p2psc.Net.Socket
use p2psc.Net.Socket.Written.{taken, send-whole, receive-Quiet}
use p2psc.Integration.StatefulSocket.{
  StatefulSocket, noted_sent, noted_received, send, receive, get_sent_messages,
}

pub data Call : Type 0 where
  sending : Bytes → Call
  receiving : Call

noted_sent-eq :
    (outcome : Outcome (Unit {0})) (message : Bytes) (s : StatefulSocket)
    → (noted_sent outcome message s).sent_messages ≡ s.sent_messages ++ taken outcome message
unfolding noted_sent taken
noted_sent-eq (ok u) message s = refl
noted_sent-eq (throw e) message s = sym (append-nil _)
noted_sent-eq aborted message s = sym (append-nil _)
noted_sent-eq crashed message s = sym (append-nil _)
noted_sent-eq blocked message s = sym (append-nil _)
noted_sent-eq stuck message s = sym (append-nil _)

noted_received-eq :
    (outcome : Outcome Bytes) (s : StatefulSocket)
    → (noted_received outcome s).sent_messages ≡ s.sent_messages
unfolding noted_received
noted_received-eq (ok u) s = refl
noted_received-eq (throw e) s = refl
noted_received-eq aborted s = refl
noted_received-eq crashed s = refl
noted_received-eq blocked s = refl
noted_received-eq stuck s = refl

module _ ⦃o : Os⦄ where
  -- Calls one after the other, by a caller that goes on after an exception.
  unfoldable pub calls : List Call → StatefulSocket → World → StatefulSocket × World
  unfolding send receive
  calls [] s w = (s, w)
  calls (sending message ∷ cs) s w = let (_, s', w') = send message s w in calls cs s' w'
  calls (receiving ∷ cs) s w = let (_, s', w') = receive s w in calls cs s' w'

  -- Whatever calls are made, of which some may throw: the messages that the object notes as sent
  -- in these calls are those that the thread hands to the system in full, in their order.
  pub calls-sent :
      (cs : List Call) (s : StatefulSocket) (w : World)
      → (l : List Bytes) × (get_sent_messages (calls cs s w).0 ≡ get_sent_messages s ++ l)
        × (whole (calls cs s w).1.trace ≡ whole w.trace ++ l)
  unfolding calls get_sent_messages
  calls-sent [] s w = ([], sym (append-nil _), sym (append-nil _))
  calls-sent (sending message ∷ cs) s w =
      let new = taken (Socket.send s.socket message w).0 message in
      let (l, noted, handed) =
        calls-sent cs (noted_sent (Socket.send s.socket message w).0 message s)
          (Socket.send s.socket message w).1 in
      (
        new ++ l,
        noted
            ∙ ap (λ x. x ++ l) (noted_sent-eq (Socket.send s.socket message w).0 message s)
            ∙ append_assoc s.sent_messages new l,
        handed
            ∙ ap (λ x. x ++ l) (send-whole s.socket message w)
            ∙ append_assoc (whole w.trace) new l,
      )
  calls-sent (receiving ∷ cs) s w =
      let (l, noted, handed) =
        calls-sent cs (noted_received (Socket.receive s.socket w).0 s)
          (Socket.receive s.socket w).1 in
      (
        l,
        noted ∙ ap (λ x. x ++ l) (noted_received-eq (Socket.receive s.socket w).0 s),
        handed ∙ ap (λ x. x ++ l) ((receive-Quiet s.socket).same w),
      )

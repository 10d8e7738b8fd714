-- ===== src/Hdlc/Connection/Sending.antt =====
-- send of HdlcConnection (dlms_cosem/hdlc/connection.py).
use dlms_cosem.Prelude.{
  ℕ, ◌+◌, ◌%◌, ◌≡◌, ◌≢◌, ◌⊎◌, refl, ap, arith, false, Option, none, some, List, Result, ok, raise,
  ◌>>◌, or_raise, local_protocol_error,
}
use mathlib.Core.Path.{subst}
use dlms_cosem.Hdlc.State.{
  HdlcState, idle, awaiting_response, hdlc_state_transitions, process_frame,
}
use dlms_cosem.Hdlc.Frames.Defs.{HdlcFrame, FrameClass, information_class}
use dlms_cosem.Hdlc.Frames.Defs as Frame
use dlms_cosem.Hdlc.Connection.Defs.{HdlcConnection, count_frame, send, send_in}
use dlms_cosem.Hdlc.Connection.Invariant.{IsValid, with_state}

-- A frame that is sent carries the numbers of the connection, and takes the next one.
pub record Sent (c : HdlcConnection) (f : HdlcFrame) (c' : HdlcConnection) (bytes : List ℕ)
    : Type 0 where
  pub moved : hdlc_state_transitions c.state f.frame_class ≡ some c'.state
  pub ssn : f.send_sequence_number ≡ c.server_ssn
  pub rsn : f.receive_sequence_number ≡ c.server_rsn
  pub next_ssn : c'.server_ssn ≡ (c.server_ssn + 1) % 8
  pub same_rsn : c'.server_rsn ≡ c.server_rsn
  pub same_buffer : c'.buffer ≡ c.buffer
  pub encoded : Frame.to_bytes f ≡ ok bytes

>>-eq-ok {ℓ} :
    {B : Type ℓ} (m : Result (Unit {0})) (k : Result B) {b : B}
    → (m >> k) ≡ ok b
    → (m ≡ ok tt) × (k ≡ ok b)
>>-eq-ok (ok tt) k h = (refl, h)
>>-eq-ok (raise e) k h = cc

counted :
    (c : HdlcConnection) (f : HdlcFrame)
    → f.frame_class ≡ information_class
    → IsValid c
    → (count_frame c f false).1 ≡ ok tt
    → (f.send_sequence_number ≡ c.server_ssn)
      × (f.receive_sequence_number ≡ c.server_rsn)
      × ((count_frame c f false).0.server_ssn ≡ (c.server_ssn + 1) % 8)
      × ((count_frame c f false).0.server_rsn ≡ c.server_rsn)
      × ((count_frame c f false).0.buffer ≡ c.buffer)
      × ((count_frame c f false).0.state ≡ c.state)
unfolding count_frame
counted c f i v h = ground arith

send_in_ok :
    (c : HdlcConnection) (f : HdlcFrame) (t : Option HdlcState) (c' : HdlcConnection)
    (bytes : List ℕ)
    → f.frame_class ≡ information_class
    → IsValid c
    → send_in c f (or_raise local_protocol_error t) ≡ (c', ok bytes)
    → hdlc_state_transitions c.state f.frame_class ≡ t
    → Sent c f c' bytes
unfolding send_in
send_in_ok c f none c' bytes i v h e = cc
send_in_ok c f (some s) c' bytes i v h e =
    let moved : HdlcConnection = record c { state = s } in
    let left : (count_frame moved f false).0 ≡ c' =
      ap (λ (p : HdlcConnection × Result (List ℕ)). p.0) h in
    let (done, encoded) =
      >>-eq-ok (count_frame moved f false).1 (Frame.to_bytes f)
        (ap (λ (p : HdlcConnection × Result (List ℕ)). p.1) h) in
    let (ssn, rsn, next, same, buffer, state) = counted moved f i (with_state c s v) done in
    subst (λ k. Sent c f k bytes) left
      (record {
        moved = rw (state, e) refl;
        ssn = ssn;
        rsn = rsn;
        next_ssn = next;
        same_rsn = same;
        same_buffer = buffer;
        encoded = encoded;
      })

-- Where sending an information frame on a connection with consistent counters succeeds, the state
-- had a transition for it and took it, the frame carried the counters of the connection, the send
-- count moved on by one modulo 8, the receive count and the buffer stayed, and the bytes are the
-- encoding of the frame.
pub send_information :
    (c : HdlcConnection) (f : HdlcFrame) (c' : HdlcConnection) (bytes : List ℕ)
    → f.frame_class ≡ information_class
    → IsValid c
    → send c f ≡ (c', ok bytes)
    → Sent c f c' bytes
unfolding send process_frame
send_information c f c' bytes i v h =
    send_in_ok c f (hdlc_state_transitions c.state f.frame_class) c' bytes i v h refl

-- An information frame with a wrong sequence number, sent on an idle connection, is refused with a
-- LocalProtocolError that leaves the connection waiting for a response, all else unchanged.
pub send_refused_moves :
    (c : HdlcConnection) (f : HdlcFrame)
    → c.state ≡ idle
    → f.frame_class ≡ information_class
    → ((f.send_sequence_number ≢ c.server_ssn) ⊎ (f.receive_sequence_number ≢ c.server_rsn))
    → send c f ≡ (record c { state = awaiting_response }, raise local_protocol_error)
unfolding send process_frame hdlc_state_transitions count_frame
send_refused_moves c f s i ne = ground arith

-- A frame for which the state has no transition changes nothing.
pub send_no_transition :
    (c : HdlcConnection) (f : HdlcFrame)
    → hdlc_state_transitions c.state f.frame_class ≡ none
    → send c f ≡ (c, raise local_protocol_error)
unfolding send process_frame
send_no_transition c f h = ground arith

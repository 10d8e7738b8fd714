-- ===== src/Hdlc/Connection/Acknowledged.antt =====
-- Connecting and disconnecting: the server's acknowledgment in the buffer of HdlcConnection
-- (dlms_cosem/hdlc/connection.py).
use dlms_cosem.Prelude.{
  ℕ, ◌+◌, ◌<◌, ◌≡◌, refl, ap, ◌∙◌, arith, some, List, [], ◌∷◌, ◌++◌, length, drop, ok, IsBytes,
}
use dlms_cosem.Hdlc.State.{
  HdlcState, not_connected, idle, awaiting_response, awaiting_connection, awaiting_disconnect,
  closed, hdlc_state_transitions, process_frame,
}
use dlms_cosem.Hdlc.Address.Defs.{HdlcAddress}
use dlms_cosem.Hdlc.Address.Wire.{IsReadable}
use dlms_cosem.Hdlc.Frames.Defs.{HdlcFrame, unnumbered_acknowledgment, hdlc_flag}
use dlms_cosem.Hdlc.Frames.Defs as Frame
use dlms_cosem.Hdlc.Frames.Parse.{acknowledgment_from_bytes}
use dlms_cosem.Hdlc.Frames.AcknowledgmentRoundTrip.{
  ua_frame, ua_length, acknowledgment_from_bytes-to_bytes,
}
use dlms_cosem.Hdlc.Connection.Defs.{
  HdlcConnection, count_frame, parse_expected, received, accept_in, handle_found, next_event,
}
use dlms_cosem.Hdlc.Connection.Delivery.{NoFlag, found, find_frame-first, left_over}

module _ (c : HdlcConnection) (xs later : List ℕ) (nf : NoFlag xs)
    (start : c.buffer_search_position ≡ 1)
    (buffered : c.buffer ≡ hdlc_flag ∷ (xs ++ (hdlc_flag ∷ later))) where
  acknowledged :
      (f : HdlcFrame) (s : HdlcState)
      → f.frame_class ≡ unnumbered_acknowledgment
      → accept_in (found c xs later nf start buffered) f (ok s)
        ≡ (record c { state = s; buffer = later; buffer_search_position = 1 }, ok (received f))
  unfolding accept_in count_frame
  acknowledged f s i =
      let rest : drop (length xs + 2) c.buffer ≡ later =
        ap (drop (length xs + 2)) buffered ∙ left_over c xs later nf start buffered in
      ground (arith, rest)

expected_acknowledgment :
    (s s' : HdlcState) (bytes : List ℕ) (f : HdlcFrame)
    → hdlc_state_transitions s unnumbered_acknowledgment ≡ some s'
    → acknowledgment_from_bytes bytes ≡ ok f
    → parse_expected s bytes ≡ ok (some f)
unfolding parse_expected hdlc_state_transitions
expected_acknowledgment awaiting_connection s' bytes f t e = rw e
expected_acknowledgment awaiting_disconnect s' bytes f t e = rw e
expected_acknowledgment not_connected s' bytes f t e = cc
expected_acknowledgment idle s' bytes f t e = cc
expected_acknowledgment awaiting_response s' bytes f t e = cc
expected_acknowledgment closed s' bytes f t e = cc

-- A client in a state with a transition for an acknowledgment, that is waiting for the connection or
-- for its end, holds such a frame at the head of its buffer: bytes that the frame's `to_bytes` wrote,
-- with no flag between the first and the last. The next poll returns that frame, the state has moved
-- on by the table, the counters are as they were, and the bytes behind the frame stay in the buffer.
-- The frame is to a client address under 128 from a server address that can be read back, with a
-- payload of bytes and a length under 2048.
pub next_event-acknowledgment :
    (l : ℕ) {a : HdlcAddress} (r : IsReadable a) (h : l < 128) (payload : List ℕ)
    (c : HdlcConnection) (s : HdlcState) (xs later : List ℕ)
    → IsBytes payload
    → ua_length l r h payload < 2048
    → hdlc_state_transitions c.state unnumbered_acknowledgment ≡ some s
    → Frame.to_bytes (ua_frame l r h payload) ≡ ok (hdlc_flag ∷ (xs ++ (hdlc_flag ∷ [])))
    → NoFlag xs
    → c.buffer_search_position ≡ 1
    → c.buffer ≡ hdlc_flag ∷ (xs ++ (hdlc_flag ∷ later))
    → next_event c ≡ (
      record c { state = s; buffer = later; buffer_search_position = 1 },
      ok (received (ua_frame l r h payload)),
    )
unfolding next_event
next_event-acknowledgment l r h payload c s xs later hp hn t e nf pos buf =
    rw (find_frame-first c xs later nf pos buf) (
      rw (parsed, handle_found)
        (ap (accept_in (found c xs later nf pos buf) f) processed
          ∙ acknowledged c xs later nf pos buf f s refl))
  where
    f : HdlcFrame
    f = ua_frame l r h payload

    processed : process_frame c.state unnumbered_acknowledgment ≡ ok s
    processed = unfold process_frame in rw t

    parsed : parse_expected c.state (hdlc_flag ∷ (xs ++ (hdlc_flag ∷ []))) ≡ ok (some f)
    parsed =
        expected_acknowledgment c.state s _ f t
          (rw e at (acknowledgment_from_bytes-to_bytes l r h payload hp hn))

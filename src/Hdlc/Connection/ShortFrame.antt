-- ===== src/Hdlc/Connection/ShortFrame.antt =====
-- A frame too short for its addresses in the buffer of HdlcConnection
-- (dlms_cosem/hdlc/connection.py).
use dlms_cosem.Prelude.{ℕ, ◌≡◌, refl, arith, List, [], ◌∷◌, raise, index_error}
use dlms_cosem.Hdlc.State.{HdlcState, awaiting_response}
use dlms_cosem.Hdlc.Frames.Parse.{
  information_from_bytes, open_frame, read_addresses, frame_is_enclosed_by_hdlc_flags,
}
use dlms_cosem.Hdlc.Address.Parse.{destination_from_bytes}
use dlms_cosem.Hdlc.Fields.FrameFormat
use dlms_cosem.Hdlc.Connection.Defs.{HdlcConnection, parse_expected, handle_found, next_event}
use dlms_cosem.Hdlc.Connection.Delivery.{find_frame-first}

short_frame_unread : information_from_bytes (0x7e ∷ 0xa0 ∷ 0x02 ∷ 0x7e ∷ []) ≡ raise index_error
unfolding information_from_bytes open_frame read_addresses frame_is_enclosed_by_hdlc_flags
    destination_from_bytes FrameFormat.from_bytes
short_frame_unread = refl

expected_unread :
    (s : HdlcState)
    → s ≡ awaiting_response
    → parse_expected s (0x7e ∷ 0xa0 ∷ 0x02 ∷ 0x7e ∷ []) ≡ raise index_error
unfolding parse_expected
expected_unread s st = rw st (rw short_frame_unread)

-- A client that waits for a response, with the four bytes 7e a0 02 7e at the head of its buffer,
-- raises an IndexError at the next poll and keeps them: only the position of the search has moved.
pub short_frame_raises :
    (c : HdlcConnection) (later : List ℕ)
    → c.state ≡ awaiting_response
    → c.buffer_search_position ≡ 1
    → c.buffer ≡ 0x7e ∷ 0xa0 ∷ 0x02 ∷ 0x7e ∷ later
    → next_event c ≡ (record c { buffer_search_position = 4 }, raise index_error)
unfolding next_event
short_frame_raises c later st pos buf =
    rw (find_frame-first c (0xa0 ∷ 0x02 ∷ []) later (ground arith) pos buf)
      (rw (expected_unread c.state st, handle_found) refl)

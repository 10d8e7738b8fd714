-- ===== src/Hdlc/Connection/Delivery.antt =====
-- A whole information frame in the buffer of HdlcConnection (dlms_cosem/hdlc/connection.py).
use dlms_cosem.Prelude.{
  ℕ, ◌+◌, ◌%◌, ◌≤◌, ◌<◌, ◌≡◌, ◌≢◌, refl, sym, ap, ◌∙◌, arith, Bool, Option, some, List, [], ◌∷◌,
  ◌++◌, append_assoc, length, take, drop, All, length-append, take_prefix, drop_prefix, ok, IsBytes,
}
use dlms_cosem.Hdlc.State.{
  HdlcState, idle, awaiting_response, hdlc_state_transitions, process_frame,
}
use dlms_cosem.Hdlc.Address.Defs.{HdlcAddress}
use dlms_cosem.Hdlc.Address.Wire.{IsReadable, wire}
use dlms_cosem.Hdlc.Frames.Defs.{HdlcFrame, FrameClass, information_class, hdlc_flag}
use dlms_cosem.Hdlc.Frames.Defs as Frame
use dlms_cosem.Hdlc.Frames.Parse.{information_from_bytes}
use dlms_cosem.Hdlc.Frames.Bytes.{to_client}
use dlms_cosem.Hdlc.Frames.InformationRoundTrip.{information_from_bytes-to_bytes}
use dlms_cosem.Hdlc.Connection.Defs.{
  HdlcConnection, count_frame, index_of, index_from, with_flag, find_frame, parse_expected,
  received, accept_in, handle_found, next_event,
}
use dlms_cosem.Hdlc.Connection.Invariant.{IsValid}

-- No byte of the list is a flag.
abbrev pub NoFlag : List ℕ → Type 0
NoFlag = All (λ b. b ≢ hdlc_flag)

index_of-first :
    (xs ys : List ℕ) → NoFlag xs → index_of hdlc_flag (xs ++ (hdlc_flag ∷ ys)) ≡ some (length xs)
unfolding index_of
index_of-first [] ys h = refl
index_of-first (x ∷ xs) ys (h, hs) = ground (arith, index_of-first xs ys hs)

module _ (c : HdlcConnection) (xs later : List ℕ) (nf : NoFlag xs)
    (start : c.buffer_search_position ≡ 1)
    (buffered : c.buffer ≡ hdlc_flag ∷ (xs ++ (hdlc_flag ∷ later))) where
  abbrev pub found : HdlcConnection
  found = record c { buffer_search_position = length xs + 2 }

  index_from-first : index_from hdlc_flag c.buffer c.buffer_search_position ≡ some (length xs + 1)
  unfolding index_from
  index_from-first =
      rw start (rw buffered (rw (index_of-first xs later nf) (ap some (omega arith))))

  taken :
      take (length xs + 2) (hdlc_flag ∷ (xs ++ (hdlc_flag ∷ later)))
      ≡ hdlc_flag ∷ (xs ++ (hdlc_flag ∷ []))
  taken =
      ap (λ t. take (length xs + 2) (hdlc_flag ∷ t)) (sym (append_assoc xs (hdlc_flag ∷ []) later))
      ∙ take_prefix (hdlc_flag ∷ (xs ++ (hdlc_flag ∷ []))) later (length xs + 2)
          (omega (arith, length-append xs (hdlc_flag ∷ [])))

  pub left_over : drop (length xs + 2) (hdlc_flag ∷ (xs ++ (hdlc_flag ∷ later))) ≡ later
  left_over =
      ap (λ t. drop (length xs + 2) (hdlc_flag ∷ t)) (sym (append_assoc xs (hdlc_flag ∷ []) later))
      ∙ drop_prefix (hdlc_flag ∷ (xs ++ (hdlc_flag ∷ []))) later (length xs + 2)
          (omega (arith, length-append xs (hdlc_flag ∷ [])))

  abbrev pair : List ℕ → HdlcConnection × Option (List ℕ)
  pair t = (found, some (with_flag t))

  -- The first whole frame of the buffer is found.
  pub find_frame-first : find_frame c ≡ (found, some (hdlc_flag ∷ (xs ++ (hdlc_flag ∷ []))))
  unfolding find_frame
  find_frame-first =
      rw (index_from-first, find_frame)
        (let e : length xs + 1 + 1 ≡ length xs + 2 = omega arith in
          rw e (ap pair (ap (λ t. take (length xs + 2) t) buffered ∙ taken)))

  -- The connection after an information frame that the server sent.
  abbrev pub after : HdlcConnection
  after = record c {
    client_ssn = (c.client_ssn + 1) % 8;
    server_rsn = (c.server_rsn + 1) % 8;
    state = idle;
    buffer = later;
    buffer_search_position = 1;
  }

  accepted :
      (f : HdlcFrame)
      → IsValid c
      → f.frame_class ≡ information_class
      → f.send_sequence_number ≡ c.client_ssn
      → f.receive_sequence_number ≡ c.client_rsn
      → accept_in found f (ok idle) ≡ (after, ok (received f))
  unfolding accept_in count_frame
  accepted f v i s r =
      let rest : drop (length xs + 2) c.buffer ≡ later =
        ap (drop (length xs + 2)) buffered ∙ left_over in
      ground (arith, rest)

expected_information :
    (s : HdlcState) (bytes : List ℕ) (f : HdlcFrame)
    → s ≡ awaiting_response
    → information_from_bytes bytes ≡ ok f
    → parse_expected s bytes ≡ ok (some f)
unfolding parse_expected
expected_information s bytes f st e = rw st (rw e)

processed : (s : HdlcState) → s ≡ awaiting_response → process_frame s information_class ≡ ok idle
unfolding process_frame hdlc_state_transitions
processed s st = rw st

-- A client that waits for a response, with consistent counters, holds an information frame at the
-- head of its buffer: bytes that the frame's `to_bytes` wrote, with no flag between the first and
-- the last. Where the frame carries the numbers that the client expects, the next poll returns that
-- frame, the client is idle, its counters have moved on by one modulo 8, and the bytes behind the
-- frame stay in the buffer. The frame is to a client address under 128 from a server address that
-- can be read back, with sequence numbers up to 7, a payload of bytes and a length under 2048.
pub next_event-information :
    (l : ℕ) {a : HdlcAddress} (r : IsReadable a) (h : l < 128) (payload : List ℕ)
    (segmented final : Bool) (ssn rsn : ℕ) (c : HdlcConnection) (xs later : List ℕ)
    → ssn ≤ 7
    → rsn ≤ 7
    → IsBytes payload
    → 8 + length (wire r) + length payload < 2048
    → IsValid c
    → c.state ≡ awaiting_response
    → ssn ≡ c.client_ssn
    → rsn ≡ c.client_rsn
    → (let f = to_client l r h information_class (some payload) segmented final ssn rsn in
        Frame.to_bytes f ≡ ok (hdlc_flag ∷ (xs ++ (hdlc_flag ∷ []))))
    → NoFlag xs
    → c.buffer_search_position ≡ 1
    → c.buffer ≡ hdlc_flag ∷ (xs ++ (hdlc_flag ∷ later))
    → next_event c ≡ (
      record c {
        client_ssn = (c.client_ssn + 1) % 8;
        server_rsn = (c.server_rsn + 1) % 8;
        state = idle;
        buffer = later;
        buffer_search_position = 1;
      },
      ok (received (to_client l r h information_class (some payload) segmented final ssn rsn)),
    )
unfolding next_event
next_event-information l r h payload segmented final ssn rsn c xs later hs hr hp hn v st es er e nf
      pos buf =
    rw (find_frame-first c xs later nf pos buf) (
      rw (parsed, handle_found)
        (ap (accept_in (found c xs later nf pos buf) f) (processed c.state st)
          ∙ accepted c xs later nf pos buf f v refl es er))
  where
    f : HdlcFrame
    f = to_client l r h information_class (some payload) segmented final ssn rsn

    parsed : parse_expected c.state (hdlc_flag ∷ (xs ++ (hdlc_flag ∷ []))) ≡ ok (some f)
    parsed = expected_information c.state _ f st (
        rw e at (information_from_bytes-to_bytes l r h payload segmented final ssn rsn hs hr hp hn))

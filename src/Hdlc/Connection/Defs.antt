-- ===== src/Hdlc/Connection/Defs.antt =====
-- HdlcConnection (dlms_cosem/hdlc/connection.py). A method returns the connection as it leaves it,
-- also where it raises.
use dlms_cosem.Prelude.{
  ℕ, suc, ◌+◌, Bool, true, false, not, ◌||◌, Option, none, some, List, [], ◌∷◌, ◌++◌, ltb, ◌==◌,
  if◌then◌else◌, take, drop, Result, ok, raise, ◌>>=◌, ◌>>◌, value_error, hdlc_parsing_error,
  missing_hdlc_flags, local_protocol_error,
}
use mathlib.Core.Option
use dlms_cosem.Hdlc.Address.Defs.{HdlcAddress}
use dlms_cosem.Hdlc.State.{
  HdlcState, not_connected, awaiting_response, awaiting_connection, awaiting_disconnect,
  process_frame,
}
use dlms_cosem.Hdlc.Frames.Defs.{HdlcFrame, FrameClass, information_class, hdlc_flag}
use dlms_cosem.Hdlc.Frames.Defs as Frame
use dlms_cosem.Hdlc.Frames.Parse.{
  acknowledgment_from_bytes, information_from_bytes, receive_ready_from_bytes,
}

pub record HdlcConnection : Type 0 where
  pub client_address : HdlcAddress
  pub server_address : HdlcAddress
  pub client_ssn : ℕ
  pub client_rsn : ℕ
  pub server_ssn : ℕ
  pub server_rsn : ℕ
  pub max_data_size : ℕ
  pub state : HdlcState
  pub buffer : List ℕ
  pub buffer_search_position : ℕ

-- The constructor with its defaults.
unfoldable pub new : HdlcAddress → HdlcAddress → HdlcConnection
new client server = record {
  client_address = client;
  server_address = server;
  client_ssn = 0;
  client_rsn = 0;
  server_ssn = 0;
  server_rsn = 0;
  max_data_size = 128;
  state = not_connected;
  buffer = [];
  buffer_search_position = 1;
}

-- `if n > 7: n = 0`
abbrev pub roll_over : ℕ → ℕ
roll_over n = if ltb 7 n then 0 else n

unfoldable pub roll_over_all : HdlcConnection → HdlcConnection
roll_over_all c = record c {
  client_ssn = roll_over c.client_ssn;
  client_rsn = roll_over c.client_rsn;
  server_ssn = roll_over c.server_ssn;
  server_rsn = roll_over c.server_rsn;
}

unfoldable pub handle_sequence_numbers :
    HdlcConnection → ℕ → ℕ → Bool → HdlcConnection × Result (Unit {0})
unfolding roll_over_all
handle_sequence_numbers c frame_ssn frame_rsn false =
    if not (frame_ssn == c.server_ssn) || not (frame_rsn == c.server_rsn)
    then (c, raise local_protocol_error)
    else (
      roll_over_all (record c { client_rsn = c.client_rsn + 1; server_ssn = c.server_ssn + 1 }),
      ok tt,
    )
handle_sequence_numbers c frame_ssn frame_rsn true =
    if not (frame_ssn == c.client_ssn) || not (frame_rsn == c.client_rsn)
    then (c, raise local_protocol_error)
    else (
      roll_over_all (record c { client_ssn = c.client_ssn + 1; server_rsn = c.server_rsn + 1 }),
      ok tt,
    )

-- `isinstance(frame, InformationFrame)`
abbrev pub is_information : FrameClass → Bool
is_information information_class = true
is_information _ = false

-- The sequence numbers are checked for information frames only.
unfoldable pub count_frame : HdlcConnection → HdlcFrame → Bool → HdlcConnection × Result (Unit {0})
unfolding handle_sequence_numbers
count_frame c frame response =
    if is_information frame.frame_class
    then handle_sequence_numbers c frame.send_sequence_number frame.receive_sequence_number response
    else (c, ok tt)

-- The frame of `send` after its transition.
unfoldable pub send_in :
    HdlcConnection → HdlcFrame → Result HdlcState → HdlcConnection × Result (List ℕ)
send_in c frame (raise e) = (c, raise e)
send_in c frame (ok state) =
    let (c', counted) = count_frame (record c { state = state }) frame false in
    (c', counted >> Frame.to_bytes frame)

unfoldable pub send : HdlcConnection → HdlcFrame → HdlcConnection × Result (List ℕ)
unfolding send_in
send c frame = send_in c frame (process_frame c.state frame.frame_class)

unfoldable pub receive_data : HdlcConnection → List ℕ → HdlcConnection
receive_data c input = record c { buffer = c.buffer ++ input }

-- `bs.index(b, start)`; `none` is a ValueError.
unfoldable pub index_of : ℕ → List ℕ → Option ℕ
index_of b [] = none
index_of b (x ∷ xs) = let rest = index_of b xs in if x == b then some 0 else Option.map suc rest

unfoldable pub index_from : ℕ → List ℕ → ℕ → Option ℕ
unfolding index_of
index_from b bs start = Option.map (λ i. start + i) (index_of b (drop start bs))

-- `if not frame_bytes.startswith(HDLC_FLAG): frame_bytes.insert(0, HDLC_FLAG)`
unfoldable pub with_flag : List ℕ → List ℕ
with_flag [] = hdlc_flag ∷ []
with_flag (b ∷ bs) = if b == hdlc_flag then b ∷ bs else hdlc_flag ∷ b ∷ bs

-- `_find_frame`
unfoldable pub found_at : HdlcConnection → Option ℕ → HdlcConnection × Option (List ℕ)
unfolding with_flag
found_at c none = (c, none)
found_at c (some i) =
    (record c { buffer_search_position = i + 1 }, some (with_flag (take (i + 1) c.buffer)))

unfoldable pub find_frame : HdlcConnection → HdlcConnection × Option (List ℕ)
unfolding index_from found_at
find_frame c = found_at c (index_from hdlc_flag c.buffer c.buffer_search_position)

-- `_tidy_buffer`
unfoldable pub tidy_buffer : HdlcConnection → HdlcConnection
tidy_buffer c = record c {
  buffer = drop c.buffer_search_position c.buffer;
  buffer_search_position = 1;
}

-- `except (HdlcParsingError, ValueError): frame = None`; MissingHdlcFlags is an HdlcParsingError.
unfoldable pub parsed_or_none : Result HdlcFrame → Result (Option HdlcFrame)
parsed_or_none (ok frame) = ok (some frame)
parsed_or_none (raise value_error) = ok none
parsed_or_none (raise hdlc_parsing_error) = ok none
parsed_or_none (raise missing_hdlc_flags) = ok none
parsed_or_none (raise e) = raise e

-- A frame of the class that the state waits for.
unfoldable pub parse_expected : HdlcState → List ℕ → Result (Option HdlcFrame)
unfolding parsed_or_none
parse_expected awaiting_connection bytes = parsed_or_none (acknowledgment_from_bytes bytes)
parse_expected awaiting_disconnect bytes = parsed_or_none (acknowledgment_from_bytes bytes)
parse_expected awaiting_response bytes = do
  frame ← parsed_or_none (information_from_bytes bytes)
  elim frame [ some f ↦ ok (some f) | none ↦ parsed_or_none (receive_ready_from_bytes bytes) ]
parse_expected _ bytes = ok none

pub data Event : Type 0 where
  need_data : Event
  received : HdlcFrame → Event

-- The end of `next_event`: transition, tidying, sequence numbers.
unfoldable pub accept_in :
    HdlcConnection → HdlcFrame → Result HdlcState → HdlcConnection × Result Event
unfolding tidy_buffer
accept_in c frame (raise e) = (c, raise e)
accept_in c frame (ok state) =
    let (c', counted) = count_frame (tidy_buffer (record c { state = state })) frame true in
    (c', counted >> ok (received frame))

unfoldable pub handle_parsed :
    HdlcConnection → Result (Option HdlcFrame) → HdlcConnection × Result Event
unfolding accept_in
handle_parsed c (raise e) = (c, raise e)
handle_parsed c (ok none) = (c, ok need_data)
handle_parsed c (ok (some frame)) = accept_in c frame (process_frame c.state frame.frame_class)

unfoldable pub handle_found : HdlcConnection → Option (List ℕ) → HdlcConnection × Result Event
unfolding handle_parsed
handle_found c none = (c, ok need_data)
handle_found c (some bytes) = handle_parsed c (parse_expected c.state bytes)

unfoldable pub next_event : HdlcConnection → HdlcConnection × Result Event
unfolding handle_found
next_event c = let (c', frame_bytes) = find_frame c in handle_found c' frame_bytes

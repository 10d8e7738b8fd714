-- ===== src/Hdlc/Connection/Invariant.antt =====
-- The sequence numbers of HdlcConnection (dlms_cosem/hdlc/connection.py) along its operations.
use dlms_cosem.Prelude.{
  ℕ, ◌≤◌, ◌≡◌, inl, inr, arith, Bool, true, false, Option, none, some, List, [], ◌∷◌, Bool-cases,
  Result, ok, raise,
}
use dlms_cosem.Hdlc.Address.Defs.{HdlcAddress}
use dlms_cosem.Hdlc.State.{HdlcState, process_frame}
use dlms_cosem.Hdlc.Frames.Defs.{HdlcFrame, hdlc_flag}
use dlms_cosem.Hdlc.Connection.Defs.{
  HdlcConnection, new, handle_sequence_numbers, count_frame, is_information, send, send_in,
  found_at, accept_in, handle_parsed, handle_found, index_from, receive_data, find_frame,
  tidy_buffer, parse_expected, next_event,
}

pub record IsValid (c : HdlcConnection) : Type 0 where
  pub sent_agree : c.client_rsn ≡ c.server_ssn
  pub received_agree : c.client_ssn ≡ c.server_rsn
  pub sent_small : c.server_ssn ≤ 7
  pub received_small : c.server_rsn ≤ 7
  pub searched : 1 ≤ c.buffer_search_position

handle_sequence_numbers-IsValid :
    (c : HdlcConnection) (ssn rsn : ℕ) (response : Bool)
    → IsValid c
    → IsValid (handle_sequence_numbers c ssn rsn response).0
unfolding handle_sequence_numbers
handle_sequence_numbers-IsValid c ssn rsn true v = ground arith
handle_sequence_numbers-IsValid c ssn rsn false v = ground arith

count_frame-IsValid :
    (c : HdlcConnection) (f : HdlcFrame) (response : Bool)
    → IsValid c
    → IsValid (count_frame c f response).0
count_frame-IsValid c f response v = elim (Bool-cases (is_information f.frame_class)) [
  | inl i ↦
      unfold count_frame in
      rw i (
        handle_sequence_numbers-IsValid c f.send_sequence_number f.receive_sequence_number response
          v)
  | inr o ↦ unfold count_frame in rw o v
]

-- A change of state or of the buffer.
pub with_state : (c : HdlcConnection) (s : HdlcState) → IsValid c → IsValid (record c { state = s })
with_state c s v = ground arith

send_in-IsValid :
    (c : HdlcConnection) (f : HdlcFrame) (s : Result HdlcState)
    → IsValid c
    → IsValid (send_in c f s).0
unfolding send_in
send_in-IsValid c f (raise e) v = v
send_in-IsValid c f (ok s) v =
    count_frame-IsValid (record c { state = s }) f false (with_state c s v)

pub send-IsValid : (c : HdlcConnection) (f : HdlcFrame) → IsValid c → IsValid (send c f).0
unfolding send
send-IsValid c f v = send_in-IsValid c f (process_frame c.state f.frame_class) v

pub receive_data-IsValid :
    (c : HdlcConnection) (bs : List ℕ) → IsValid c → IsValid (receive_data c bs)
unfolding receive_data
receive_data-IsValid c bs v = ground arith

found_at-IsValid : (c : HdlcConnection) (i : Option ℕ) → IsValid c → IsValid (found_at c i).0
unfolding found_at
found_at-IsValid c i v = ground arith

accept_in-IsValid :
    (c : HdlcConnection) (f : HdlcFrame) (s : Result HdlcState)
    → IsValid c
    → IsValid (accept_in c f s).0
unfolding accept_in
accept_in-IsValid c f (raise e) v = v
accept_in-IsValid c f (ok s) v =
    count_frame-IsValid (tidy_buffer (record c { state = s })) f true (ground arith)

handle_parsed-IsValid :
    (c : HdlcConnection) (p : Result (Option HdlcFrame)) → IsValid c → IsValid (handle_parsed c p).0
unfolding handle_parsed
handle_parsed-IsValid c (raise e) v = v
handle_parsed-IsValid c (ok none) v = v
handle_parsed-IsValid c (ok (some f)) v =
    accept_in-IsValid c f (process_frame c.state f.frame_class) v

handle_found-IsValid :
    (c : HdlcConnection) (bs : Option (List ℕ)) → IsValid c → IsValid (handle_found c bs).0
unfolding handle_found
handle_found-IsValid c none v = v
handle_found-IsValid c (some bs) v = handle_parsed-IsValid c (parse_expected c.state bs) v

pub next_event-IsValid : (c : HdlcConnection) → IsValid c → IsValid (next_event c).0
unfolding next_event find_frame
next_event-IsValid c v =
    handle_found-IsValid (find_frame c).0 (find_frame c).1
      (found_at-IsValid c (index_from hdlc_flag c.buffer c.buffer_search_position) v)

pub new-IsValid : (client server : HdlcAddress) → IsValid (new client server)
unfolding new
new-IsValid client server = ground arith

-- What the user of a connection may do.
pub data Operation : Type 0 where
  sending : HdlcFrame → Operation
  receiving : List ℕ → Operation
  polling : Operation

pub perform : HdlcConnection → Operation → HdlcConnection
perform c (sending f) = (send c f).0
perform c (receiving bs) = receive_data c bs
perform c polling = (next_event c).0

-- Operations in a row, also past an exception.
unfoldable pub perform_all : HdlcConnection → List Operation → HdlcConnection
unfolding perform
perform_all c [] = c
perform_all c (o ∷ os) = perform_all (perform c o) os

perform-IsValid : (c : HdlcConnection) (o : Operation) → IsValid c → IsValid (perform c o)
unfolding perform
perform-IsValid c (sending f) v = send-IsValid c f v
perform-IsValid c (receiving bs) v = receive_data-IsValid c bs v
perform-IsValid c polling v = next_event-IsValid c v

perform_all-IsValid :
    (c : HdlcConnection) (os : List Operation) → IsValid c → IsValid (perform_all c os)
unfolding perform_all
perform_all-IsValid c [] v = v
perform_all-IsValid c (o ∷ os) v = perform_all-IsValid (perform c o) os (perform-IsValid c o v)

-- Whatever frames are sent, whatever bytes arrive and whenever a new connection is polled, errors
-- included, the client's receive count is the server's send count and the client's send count is
-- the server's receive count, all are at most 7, and the search never begins at the first byte.
pub reachable-IsValid :
    (client server : HdlcAddress) (os : List Operation)
    → IsValid (perform_all (new client server) os)
reachable-IsValid client server os = perform_all-IsValid _ os (new-IsValid client server)

-- ===== src/Hdlc/Connection/Receiving.antt =====
-- receive_data and next_event of HdlcConnection (dlms_cosem/hdlc/connection.py).
use dlms_cosem.Prelude.{
  ℕ, ◌+◌, ◌≤◌, ◌<◌, ◌≡◌, inl, inr, refl, sym, ap, arith, Option, none, some, List, [], ◌∷◌, ◌++◌,
  append_assoc, ◌==◌, Bool-cases, Option-cases, length, take, drop, length-drop, Result, ok, raise,
  ◌>>◌,
}
use mathlib.Core.Path.{subst}
use dlms_cosem.Hdlc.State.{HdlcState, process_frame}
use dlms_cosem.Hdlc.Frames.Defs.{HdlcFrame, hdlc_flag}
use dlms_cosem.Hdlc.Connection.Defs.{
  HdlcConnection, receive_data, index_of, index_from, with_flag, found_at, find_frame,
  parse_expected, Event, need_data, received, accept_in, handle_parsed, handle_found, next_event,
}

-- Bytes received in two pieces leave the connection as one piece with the same bytes does.
pub receive_data_pieces :
    (c : HdlcConnection) (xs ys : List ℕ)
    → receive_data (receive_data c xs) ys ≡ receive_data c (xs ++ ys)
unfolding receive_data
receive_data_pieces c xs ys = ap (λ t. record c { buffer = t }) (append_assoc c.buffer xs ys)

index_of-bound : (b : ℕ) (bs : List ℕ) (i : ℕ) → index_of b bs ≡ some i → i < length bs
unfolding index_of
index_of-bound b [] i h = cc
index_of-bound b (x ∷ xs) i h = elim (Bool-cases (x == b)) [
  | inl e ↦ ground arith
  | inr e ↦ elim (Option-cases (index_of b xs)) [
    | inl n ↦ ground arith
    | inr (j, s) ↦ ground (arith, index_of-bound b xs j)
  ]
]

index_from-bound :
    (b : ℕ) (bs : List ℕ) (start i : ℕ)
    → index_from b bs start ≡ some i
    → (start ≤ i) × (i < length bs)
unfolding index_from
index_from-bound b bs start i h = elim (Option-cases (index_of b (drop start bs))) [
  | inl n ↦ ground arith
  | inr (j, s) ↦ ground (arith, index_of-bound b (drop start bs) j, length-drop start bs)
]

-- A poll without an event keeps everything but the position of the search: either no flag stands at
-- or behind the position, and nothing at all changes, or the position moves forward in the buffer.
pub data Waited (c : HdlcConnection) : HdlcConnection → Type 0 where
  exhausted : index_from hdlc_flag c.buffer c.buffer_search_position ≡ none → Waited c c
  extended :
      (i : ℕ)
      → c.buffer_search_position ≤ i
      → i < length c.buffer
      → Waited c (record c { buffer_search_position = i + 1 })

>>-received : (m : Result (Unit {0})) (f : HdlcFrame) → (m >> ok (received f)) ≡ ok need_data → ⊥
>>-received (ok tt) f h = cc
>>-received (raise e) f h = cc

not_event :
    (c c' : HdlcConnection) (f : HdlcFrame) (s : Result HdlcState)
    → accept_in c f s ≡ (c', ok need_data)
    → ⊥
unfolding accept_in
not_event c c' f (raise e) h = cc
not_event c c' f (ok s) h = >>-received _ f (ap (λ (p : HdlcConnection × Result Event). p.1) h)

parsed_waits :
    (c c' : HdlcConnection) (p : Result (Option HdlcFrame))
    → handle_parsed c p ≡ (c', ok need_data)
    → c' ≡ c
unfolding handle_parsed
parsed_waits c c' (raise e) h = cc
parsed_waits c c' (ok none) h = cc
parsed_waits c c' (ok (some f)) h =
    absurd (not_event c c' f (process_frame c.state f.frame_class) h)

found_waits :
    (c c' : HdlcConnection) (i : Option ℕ)
    → index_from hdlc_flag c.buffer c.buffer_search_position ≡ i
    → handle_found (found_at c i).0 (found_at c i).1 ≡ (c', ok need_data)
    → Waited c c'
unfolding handle_found found_at
found_waits c c' none e h =
    subst (Waited c) (ap (λ (p : HdlcConnection × Result Event). p.0) h) (exhausted e)
found_waits c c' (some i) e h =
    let (lo, hi) = index_from-bound hdlc_flag c.buffer c.buffer_search_position i e in
    subst (Waited c)
      (sym (
        parsed_waits (record c { buffer_search_position = i + 1 }) c'
          (parse_expected c.state (with_flag (take (i + 1) c.buffer))) h))
      (extended i lo hi)

-- A poll that asks for more data left everything as it was but the position of the search: that
-- stands where it stood, and no flag at or behind it, or one past a place of the buffer that is not
-- before it.
pub next_event_waits : (c c' : HdlcConnection) → next_event c ≡ (c', ok need_data) → Waited c c'
unfolding next_event find_frame
next_event_waits c c' h =
    found_waits c c' (index_from hdlc_flag c.buffer c.buffer_search_position) refl h

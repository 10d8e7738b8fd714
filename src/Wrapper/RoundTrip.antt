-- ===== src/Wrapper/RoundTrip.antt =====
-- Wrapping and unwrapping (dlms_cosem/protocol/wrappers.py, dlms_cosem/io.py), in one piece or from
-- a stream.
use dlms_cosem.Prelude.{
  ℕ, ◌<◌, ◌≡◌, refl, ap, ◌∙◌, arith, List, ◌++◌, append_assoc, length, ok, ◌>>=◌, be_digits,
  int_to_bytes-ok,
}
use dlms_cosem.Wrapper.Defs.{
  WrapperHeader, WrapperProtocolDataUnit, header_to_bytes, header_from_bytes, to_bytes, from_bytes,
  wrap, IoImplementation, recv_response,
}

abbrev pub IsWord : ℕ → Type 0
IsWord n = n < 65536

-- The four fields of a header fit sixteen bits.
pub record Fits (h : WrapperHeader) : Type 0 where
  pub source_fits : IsWord h.source_wport
  pub destination_fits : IsWord h.destination_wport
  pub length_fits : IsWord h.length_of_data
  pub version_fits : IsWord h.version

abbrev header_bytes : WrapperHeader → List ℕ
header_bytes h =
    be_digits 2 h.version
    ++ (be_digits 2 h.source_wport
        ++ (be_digits 2 h.destination_wport ++ be_digits 2 h.length_of_data))

header-to_bytes : (h : WrapperHeader) → Fits h → header_to_bytes h ≡ ok (header_bytes h)
unfolding header_to_bytes
header-to_bytes h f = rw (int_to_bytes-ok 2 h.version f.version_fits) (
    rw (int_to_bytes-ok 2 h.source_wport f.source_fits) (
      rw (int_to_bytes-ok 2 h.destination_wport f.destination_fits)
        (rw (int_to_bytes-ok 2 h.length_of_data f.length_fits))))

header-from_bytes : (h : WrapperHeader) → Fits h → header_from_bytes (header_bytes h) ≡ ok h
unfolding header_from_bytes
header-from_bytes h f = ground arith

content-from_bytes :
    (u : WrapperProtocolDataUnit)
    → Fits u.wrapper_header
    → u.wrapper_header.length_of_data ≡ length u.content
    → from_bytes (header_bytes u.wrapper_header ++ u.content) ≡ ok u
unfolding from_bytes header_from_bytes
content-from_bytes u f e = ground arith

-- A unit whose header has fields of sixteen bits and gives the length of the data is read back from
-- its bytes.
pub wrapper_round_trip :
    (u : WrapperProtocolDataUnit)
    → Fits u.wrapper_header
    → u.wrapper_header.length_of_data ≡ length u.content
    → (to_bytes u >>= from_bytes) ≡ ok u
unfolding to_bytes
wrapper_round_trip u f e = rw (header-to_bytes u.wrapper_header f) (content-from_bytes u f e)

abbrev wrapped_header : ℕ → ℕ → List ℕ → WrapperHeader
wrapped_header client server content = record {
  source_wport = client;
  destination_wport = server;
  length_of_data = length content;
  version = 1;
}

wrapped-Fits :
    (client server : ℕ) (content : List ℕ)
    → IsWord client
    → IsWord server
    → IsWord (length content)
    → Fits (wrapped_header client server content)
wrapped-Fits client server content hc hs hl = record {
  source_fits = hc;
  destination_fits = hs;
  length_fits = hl;
  version_fits = omega arith;
}

wrap-ok :
    (client server : ℕ) (content : List ℕ)
    → Fits (wrapped_header client server content)
    → wrap client server content
      ≡ ok (header_bytes (wrapped_header client server content) ++ content)
unfolding wrap to_bytes
wrap-ok client server content f = rw (header-to_bytes (wrapped_header client server content) f) refl

-- The bytes that an io still has to deliver, in order.
module _ {S : Type 0} (io : IoImplementation S) (pending : S → List ℕ) where
  -- `recv` gives exactly the bytes asked for where so many are to come.
  abbrev pub Delivers : Type 0
  Delivers =
      (s : S) (front back : List ℕ)
      → pending s ≡ front ++ back
      → ((io.recv s (length front)).0 ≡ ok front) × (pending (io.recv s (length front)).1 ≡ back)

  recv_response-stages :
      (s : S) (bytes : List ℕ) (h : WrapperHeader)
      → (io.recv s 8).0 ≡ ok bytes
      → header_from_bytes bytes ≡ ok h
      → recv_response io s ≡ io.recv (io.recv s 8).1 h.length_of_data
  unfolding recv_response
  recv_response-stages s bytes h r e = rw r (rw e refl)

  -- A header and the data it announces are read off the stream.
  recv_response-header :
      Delivers
      → (h : WrapperHeader) (content rest : List ℕ) (s : S) → Fits h
      → h.length_of_data ≡ length content
      → pending s ≡ header_bytes h ++ (content ++ rest)
      → ((recv_response io s).0 ≡ ok content) × (pending (recv_response io s).1 ≡ rest)
  recv_response-header d h content rest s f e p =
      let (r, p') = d s (header_bytes h) (content ++ rest) p in
      let (r2, p2) = d (io.recv s 8).1 content rest p' in
      rw (recv_response-stages s (header_bytes h) h r (header-from_bytes h f)) (rw e (r2, p2))

  -- From an io that delivers what is pending, the response is the content that the other end wrapped,
  -- between addresses of sixteen bits and of a length of sixteen bits, and what follows it is pending.
  pub recv_response-wrap :
      Delivers
      → (client server : ℕ) (content rest bytes : List ℕ) (s : S) → IsWord client
      → IsWord server
      → IsWord (length content)
      → wrap client server content ≡ ok bytes
      → pending s ≡ bytes ++ rest
      → ((recv_response io s).0 ≡ ok content) × (pending (recv_response io s).1 ≡ rest)
  recv_response-wrap d client server content rest bytes s hc hs hl w p =
      let f = wrapped-Fits client server content hc hs hl in
      let e : bytes ≡ header_bytes (wrapped_header client server content) ++ content =
        cc (w, wrap-ok client server content f) in
      recv_response-header d (wrapped_header client server content) content rest s f refl (
        p
        ∙ (ap (λ x. x ++ rest) e
            ∙ append_assoc (header_bytes (wrapped_header client server content)) content rest))

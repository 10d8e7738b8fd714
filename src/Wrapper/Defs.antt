-- ===== src/Wrapper/Defs.antt =====
-- WrapperHeader and WrapperProtocolDataUnit (dlms_cosem/protocol/wrappers.py), and the part of
-- TcpTransport (dlms_cosem/io.py) that wraps and unwraps.
use dlms_cosem.Prelude.{
  ℕ, List, ◌++◌, ◌==◌, length, drop, slice, Result, ok, raise, ◌>>=◌, ◌>>◌, require, value_error,
  int_to_bytes, int_from_bytes,
}

pub record WrapperHeader : Type 0 where
  pub source_wport : ℕ
  pub destination_wport : ℕ
  pub length_of_data : ℕ
  pub version : ℕ

unfoldable pub header_to_bytes : WrapperHeader → Result (List ℕ)
header_to_bytes h = do
  version ← int_to_bytes 2 h.version
  source ← int_to_bytes 2 h.source_wport
  destination ← int_to_bytes 2 h.destination_wport
  len ← int_to_bytes 2 h.length_of_data
  ok (version ++ (source ++ (destination ++ len)))

unfoldable pub header_from_bytes : List ℕ → Result WrapperHeader
header_from_bytes in_data = do
  require (length in_data == 8) value_error
  ok (record {
    source_wport = int_from_bytes (slice in_data 2 4);
    destination_wport = int_from_bytes (slice in_data 4 6);
    length_of_data = int_from_bytes (slice in_data 6 8);
    version = int_from_bytes (slice in_data 0 2);
  })

pub record WrapperProtocolDataUnit : Type 0 where
  pub content : List ℕ
  pub wrapper_header : WrapperHeader

unfoldable pub to_bytes : WrapperProtocolDataUnit → Result (List ℕ)
unfolding header_to_bytes
to_bytes u = do header ← header_to_bytes u.wrapper_header; ok (header ++ u.content)

unfoldable pub from_bytes : List ℕ → Result WrapperProtocolDataUnit
unfolding header_from_bytes
from_bytes in_data = do
  let content = drop 8 in_data
  wrapper_header ← header_from_bytes (slice in_data 0 8)
  require (wrapper_header.length_of_data == length content) value_error
  ok (record { content = content; wrapper_header = wrapper_header })

-- TcpTransport.wrap
unfoldable pub wrap : ℕ → ℕ → List ℕ → Result (List ℕ)
unfolding to_bytes
wrap client_logical_address server_logical_address bytes_to_wrap = to_bytes (record {
  content = bytes_to_wrap;
  wrapper_header = record {
    source_wport = client_logical_address;
    destination_wport = server_logical_address;
    length_of_data = length bytes_to_wrap;
    version = 1;
  };
})

-- What the transport needs of its io: `recv(amount)` on the state of the connection.
pub record IoImplementation (S : Type 0) : Type 0 where
  pub recv : S → ℕ → Result (List ℕ) × S

module _ {S : Type 0} (io : IoImplementation S) where
  recv_body : Result WrapperHeader → S → Result (List ℕ) × S
  recv_body (raise e) s = (raise e, s)
  recv_body (ok header) s = io.recv s header.length_of_data

  recv_header : Result (List ℕ) → S → Result (List ℕ) × S
  unfolding recv_body header_from_bytes
  recv_header (raise e) s = (raise e, s)
  recv_header (ok header_data) s = recv_body (header_from_bytes header_data) s

  -- TcpTransport.recv_response
  unfoldable pub recv_response : S → Result (List ℕ) × S
  unfolding recv_header
  recv_response s = let (header_data, s') = io.recv s 8 in recv_header header_data s'

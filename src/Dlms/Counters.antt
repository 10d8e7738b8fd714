-- ===== src/Dlms/Counters.antt =====
-- The invocation counters of DlmsConnection (dlms_cosem/connection.py) along its operations.
pub mod Freshness
pub mod Nonces
pub mod Replay
use dlms_cosem.Prelude.{
  ℕ, ◌+◌, ◌≤◌, ◌<◌, ◌≡◌, ◌⊎◌, inl, inr, refl, arith, Bool, true, false, Bool-cases, Result-cases,
  Option, none, some, List, [], ◌∷◌, Result, ok, raise, ◌>>=◌, ◌>>◌, if◌then◌else◌,
}
use dlms_cosem.Security.Ciphers.{Cryptography}
use dlms_cosem.Dlms.Apdu.{
  Content, initiate_request, global_cipher_initiate_request, initiate_response,
  global_cipher_initiate_response, Apdu, aarq, aare, rlrq, rlre, general_global_cipher, plain,
  ApduCodec, type_of,
}
use dlms_cosem.Dlms.Connection.{
  DlmsConnection, use_protection, encrypt, cipher, encrypt_bytes, protect_content, protect_xdlms,
  protect, unprotect, unprotect_content, update_meter_invocation_counter,
}
use dlms_cosem.Dlms.Operations.{
  transition, receive_data, after, write, protect_if, send, note_meter, unprotect_if,
  update_negotiated_parameters, after_association, verify_meter, handle_hls, settle, accept,
  handle_apdu, next_event,
}
use dlms_cosem.Dlms.Calls.{IsKept}

module _ {Body Conformance : Type 0} where
  -- The invocation counter that a ciphered APDU carries.
  abbrev pub counter_of_content : Option (Content Body Conformance) → Option ℕ
  counter_of_content (some (global_cipher_initiate_request g)) = some g.invocation_counter
  counter_of_content _ = none

  abbrev pub counter_of : Apdu Body Conformance → Option ℕ
  counter_of (aarq r) = counter_of_content r.user_information
  counter_of (rlrq r) = counter_of_content r.user_information
  counter_of (general_global_cipher g) = some g.invocation_counter
  counter_of _ = none

-- No counter falls.
pub record Grows {Conformance : Type 0} (c c' : DlmsConnection Conformance) : Type 0 where
  pub client_grows : c.client_invocation_counter ≤ c'.client_invocation_counter
  pub meter_grows : c.meter_invocation_counter ≤ c'.meter_invocation_counter

module _ {Conformance : Type 0} where
  pub Grows-kept : IsKept {Conformance = Conformance} Grows
  unfolding transition encrypt update_meter_invocation_counter
  Grows-kept = record {
    reflexive = λ c. omega arith;
    transitive = λ g h. omega arith;
    after_transition = λ c t. ground arith;
    after_encryption = λ cryptography c bs. ground arith;
    after_counter = λ c n. ground arith;
    after_buffer = λ c bytes. omega arith;
    after_meter_info = λ c title method challenge. omega arith;
    after_negotiation = λ c conformance size. omega arith;
  }

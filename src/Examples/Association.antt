-- ===== src/Examples/Association.antt =====
-- A connection of dlms_cosem/connection.py with toy ciphers, for a body that is its own class.
use dlms_cosem.Prelude.{
  ℕ, ◌≡◌, refl, arith, true, false, none, some, List, [], ◌∷◌, Result, ok, raise, ap, value_error,
  local_dlms_protocol_error, decryption_error, Exception,
}
use dlms_cosem.Association.State.{
  EventType, DlmsState, ready, awaiting_get_response, other_event, awaiting_association_response,
  awaiting_hls_client_challenge_result, get_request_normal, get_response_normal,
  action_response_normal_with_data, process_event, dlms_state_transitions,
}
use dlms_cosem.Association.Traces.{is_request}
use dlms_cosem.Security.Control
use dlms_cosem.Security.Ciphers
use dlms_cosem.Security.Control.{SecurityControlField}
use dlms_cosem.Security.Ciphers.{Cryptography, prepare, validate_key, key_length}
use dlms_cosem.Security.Ciphering.{IsAead, decrypt-encrypt}
use dlms_cosem.Security.Methods.{high_level_common, high_level_gmac, no_security}
use dlms_cosem.Dlms.Authentication.{
  hls_generate_reply_data, gmac_reply, hls_meter_data_is_valid, common_is_valid, padded_secret,
}
use dlms_cosem.Dlms.Apdu.{
  Apdu, AssociationResponse, aare, accepted, plain, general_global_cipher, GeneralGlobalCipher,
  ApduCodec, type_of,
}
use dlms_cosem.Dlms.Connection.{
  DlmsConnection, use_protection, protect, protect_xdlms, encrypt_bytes, encrypt, cipher,
  ciphered_apdu, security_control, unprotect, update_meter_invocation_counter, decrypt,
}
use dlms_cosem.Dlms.Operations.{
  send, next_event, send_accepted, send_protected, end_without_release, transition, after, write,
  protect_if, receive_data, handle_parsed, handle_apdu, note_meter, unprotect_if, accept, settle,
  after_association, handle_hls,
}
use dlms_cosem.Dlms.Counters.{Grows}
use dlms_cosem.Dlms.Outstanding.{send-outstanding}
use dlms_cosem.Dlms.Counters.Freshness.{perform_all-Grows}
use dlms_cosem.Dlms.MeterReply.{IsGcm, Mirrors, accept-gmac_reply}
use dlms_cosem.Dlms.Calls.{Operation, sends, receives, next, perform, perform_all}
use dlms_cosem.Dlms.Counters.Nonces.{Rising, send-Written, send-Rising}
use dlms_cosem.Dlms.Counters.Replay.{since, replay-refused, forged-counter}
use dlms_cosem.Dlms.Handshake.{
  outcome, accept-association, Verified, at_hls_done, accept-challenge_result, accept-Verified,
}

abbrev byte_16 : List ℕ
byte_16 = 1 ∷ 2 ∷ 3 ∷ 4 ∷ 5 ∷ 6 ∷ 7 ∷ 8 ∷ 9 ∷ 10 ∷ 11 ∷ 12 ∷ 13 ∷ 14 ∷ 15 ∷ 16 ∷ []

abbrev no_cipher : Cryptography
no_cipher = record {
  encryptor = λ key iv associated text. (text, byte_16);
  decryptor = λ key iv associated text tag. ok text;
  aes_key_wrap = λ wrapping key. ok key;
  aes_key_unwrap = λ wrapping key. ok key;
  aes_ecb = λ key text. ok text;
}

abbrev read_apdu : List ℕ → Result (Apdu EventType ℕ)
read_apdu (n ∷ text) = ok (
    general_global_cipher (record {
      system_title = none;
      security_control = record {
        security_suite = 0;
        authenticated = true;
        encrypted = true;
        broadcast_key = false;
        compressed = false;
      };
      invocation_counter = n;
      ciphered_text = text;
    }))
read_apdu [] = ok (plain get_response_normal)

abbrev codec : ApduCodec EventType ℕ
codec = record {
  body_type = λ b. b;
  is_xdlms = λ b. true;
  to_bytes = λ a. elim a [
    | general_global_cipher g ↦ ok (g.invocation_counter ∷ g.ciphered_text)
    | _ ↦ ok (1 ∷ [])
  ];
  content_to_bytes = λ u. ok [];
  apdu_from_bytes = read_apdu;
  initiate_response_from_bytes = λ bs. raise value_error;
  action_succeeded = λ b. true;
  action_data = λ b. ok [];
}

abbrev connection : DlmsConnection ℕ
connection = record {
  authentication = no_security;
  client_system_title = 1 ∷ 2 ∷ 3 ∷ 4 ∷ 5 ∷ 6 ∷ 7 ∷ 8 ∷ [];
  global_encryption_key = some byte_16;
  global_authentication_key = some byte_16;
  security_suite = 0;
  meter_system_title = some (1 ∷ 2 ∷ 3 ∷ 4 ∷ 5 ∷ 6 ∷ 7 ∷ 8 ∷ []);
  authentication_method = none;
  meter_to_client_challenge = none;
  client_invocation_counter = 5;
  meter_invocation_counter = 3;
  max_pdu_size = 100;
  is_pre_established = false;
  buffer = [];
  state = ready;
  conformance = 0;
  settings = record { use_rlrq_rlre = true; empty_system_title_in_general_glo_ciphering = false };
}

abbrev control : SecurityControlField
control = record {
  security_suite = 0;
  authenticated = true;
  encrypted = true;
  broadcast_key = false;
  compressed = false;
}

no_cipher-IsAead : IsAead no_cipher
no_cipher-IsAead = record {
  length-tag = λ key iv associated text. refl;
  opens = λ key iv associated text. refl;
}

no_cipher-IsGcm : IsGcm no_cipher
no_cipher-IsGcm = record {
  length-tag = λ key iv associated text. refl;
  length-ciphertext = λ key iv associated text. refl;
}

abbrev request : Apdu EventType ℕ
request = plain get_request_normal

-- The response arrives, ciphered with the counter 4.
abbrev exchange : List (Operation EventType ℕ)
exchange = receives (4 ∷ []) ∷ next ∷ []

abbrev after_exchange : DlmsConnection ℕ
after_exchange = perform_all codec no_cipher (send codec no_cipher connection request).0 exchange

first_sent :
    (send codec no_cipher connection request).1
    ≡ ok (5 ∷ 1 ∷ 1 ∷ 2 ∷ 3 ∷ 4 ∷ 5 ∷ 6 ∷ 7 ∷ 8 ∷ 9 ∷ 10 ∷ 11 ∷ 12 ∷ [])
unfolding perform_all perform send next_event send_accepted send_protected end_without_release
    transition after process_event dlms_state_transitions write protect_if protect protect_xdlms
    encrypt_bytes encrypt cipher ciphered_apdu security_control use_protection Control.make
    Control.to_bytes Ciphers.encrypt prepare validate_key key_length receive_data handle_parsed
    handle_apdu note_meter unprotect_if unprotect update_meter_invocation_counter decrypt
    Ciphers.decrypt accept settle after_association handle_hls type_of
first_sent = refl

second_sent :
    (send codec no_cipher after_exchange request).1
    ≡ ok (6 ∷ 1 ∷ 1 ∷ 2 ∷ 3 ∷ 4 ∷ 5 ∷ 6 ∷ 7 ∷ 8 ∷ 9 ∷ 10 ∷ 11 ∷ 12 ∷ [])
unfolding perform_all perform send next_event send_accepted send_protected end_without_release
    transition after process_event dlms_state_transitions write protect_if protect protect_xdlms
    encrypt_bytes encrypt cipher ciphered_apdu security_control use_protection Control.make
    Control.to_bytes Ciphers.encrypt prepare validate_key key_length receive_data handle_parsed
    handle_apdu note_meter unprotect_if unprotect update_meter_invocation_counter decrypt
    Ciphers.decrypt accept settle after_association handle_hls type_of
second_sent = refl

protected_after : use_protection after_exchange ≡ true
unfolding perform_all perform send next_event send_accepted send_protected end_without_release
    transition after process_event dlms_state_transitions write protect_if protect protect_xdlms
    encrypt_bytes encrypt cipher ciphered_apdu security_control use_protection Control.make
    Control.to_bytes Ciphers.encrypt prepare validate_key key_length receive_data handle_parsed
    handle_apdu note_meter unprotect_if unprotect update_meter_invocation_counter decrypt
    Ciphers.decrypt accept settle after_association handle_hls type_of
protected_after = refl

protected_connection : use_protection connection ≡ true
unfolding use_protection
protected_connection = refl

send-Rising_example :
    Rising codec no_cipher
      (send-Written codec no_cipher connection request _ protected_connection first_sent)
      (send-Written codec no_cipher after_exchange request _ protected_after second_sent)
send-Rising_example =
    send-Rising codec no_cipher connection request request exchange _ _ protected_connection
      first_sent protected_after second_sent

-- A connection that has received bytes in a state.
abbrev waiting : DlmsState → List ℕ → DlmsConnection ℕ
waiting state buffer = record connection { state = state; buffer = buffer }

abbrev ciphered : List ℕ → ℕ → GeneralGlobalCipher
ciphered text n = record {
  system_title = none;
  security_control = control;
  invocation_counter = n;
  ciphered_text = text;
}

perform_all-Grows_example :
    Grows connection (
      perform_all codec no_cipher connection (sends request ∷ receives (4 ∷ []) ∷ next ∷ next ∷ []))
perform_all-Grows_example =
    perform_all-Grows codec no_cipher connection
      (sends request ∷ receives (4 ∷ []) ∷ next ∷ next ∷ [])

-- The request is tried again when the response has arrived, and has not been taken.
abbrev untaken : DlmsConnection ℕ
untaken =
    perform_all codec no_cipher (send codec no_cipher connection request).0
      (sends request ∷ receives (4 ∷ []) ∷ [])

send-outstanding_example :
    (x : Exception) × (send codec no_cipher untaken request ≡ (untaken, raise x))
unfolding is_request type_of
send-outstanding_example =
    send-outstanding codec no_cipher connection request request
      (sends request ∷ receives (4 ∷ []) ∷ []) _ refl first_sent (refl, (tt, tt)) refl

-- The response is taken, and arrives again.
abbrev replayed : DlmsConnection ℕ
replayed = since codec no_cipher (waiting awaiting_get_response (4 ∷ [])) (receives (4 ∷ []) ∷ [])

replayed_buffer : read_apdu replayed.buffer ≡ ok (general_global_cipher (ciphered [] 4))
unfolding perform_all perform send next_event send_accepted send_protected end_without_release
    transition after process_event dlms_state_transitions write protect_if protect protect_xdlms
    encrypt_bytes encrypt cipher ciphered_apdu security_control use_protection Control.make
    Control.to_bytes Ciphers.encrypt prepare validate_key key_length receive_data handle_parsed
    handle_apdu note_meter unprotect_if unprotect update_meter_invocation_counter decrypt
    Ciphers.decrypt accept settle after_association handle_hls type_of
replayed_buffer = refl

replayed_protected : use_protection replayed ≡ true
unfolding perform_all perform send next_event send_accepted send_protected end_without_release
    transition after process_event dlms_state_transitions write protect_if protect protect_xdlms
    encrypt_bytes encrypt cipher ciphered_apdu security_control use_protection Control.make
    Control.to_bytes Ciphers.encrypt prepare validate_key key_length receive_data handle_parsed
    handle_apdu note_meter unprotect_if unprotect update_meter_invocation_counter decrypt
    Ciphers.decrypt accept settle after_association handle_hls type_of
replayed_protected = refl

replay-refused_example :
    next_event codec no_cipher replayed ≡ (replayed, raise local_dlms_protocol_error)
unfolding use_protection
replay-refused_example =
    replay-refused codec no_cipher (waiting awaiting_get_response (4 ∷ [])) (ciphered [] 4)
      (ciphered [] 4) (receives (4 ∷ []) ∷ []) refl refl replayed_buffer replayed_protected
      (omega arith)

-- A cipher that refuses every tag.
abbrev refusing : Cryptography
refusing = record no_cipher { decryptor = λ key iv associated text tag. raise decryption_error }

forged-counter_example : next_event codec refusing (waiting ready (200 ∷ 1 ∷ [])) ≡ (
  record (waiting ready (200 ∷ 1 ∷ [])) { meter_invocation_counter = 200 },
  raise decryption_error,
)
unfolding perform_all perform send next_event send_accepted send_protected end_without_release
    transition after process_event dlms_state_transitions write protect_if protect protect_xdlms
    encrypt_bytes encrypt cipher ciphered_apdu security_control use_protection Control.make
    Control.to_bytes Ciphers.encrypt prepare validate_key key_length receive_data handle_parsed
    handle_apdu note_meter unprotect_if unprotect update_meter_invocation_counter decrypt
    Ciphers.decrypt accept settle after_association handle_hls type_of
forged-counter_example =
    forged-counter codec refusing (waiting ready (200 ∷ 1 ∷ [])) (ciphered (1 ∷ []) 200)
      decryption_error refl refl (omega arith) refl

abbrev association_response : AssociationResponse EventType ℕ
association_response = record {
  result = accepted;
  system_title = none;
  authentication = some 5;
  authentication_value = none;
  user_information = none;
  others = other_event;
}

accept-association_example :
    ((accept codec no_cipher
        (waiting awaiting_association_response [])
        (aare association_response)).1
      ≡ ok (aare association_response))
    × ((accept codec no_cipher
          (waiting awaiting_association_response [])
          (aare association_response)).0.state
        ≡ outcome codec no_cipher accepted (some 5))
    × ((accept codec no_cipher
          (waiting awaiting_association_response [])
          (aare association_response)).0.buffer
        ≡ [])
accept-association_example =
    accept-association codec no_cipher (waiting awaiting_association_response [])
      association_response refl refl

-- A connection in the HLS exchange, with the common method and the key of the cipher.
abbrev challenging : DlmsConnection ℕ
challenging = record (waiting awaiting_hls_client_challenge_result []) {
  authentication = high_level_common byte_16;
}

abbrev answering : ApduCodec EventType ℕ
answering = record codec { action_data = λ b. ok byte_16 }

abbrev answer : Apdu EventType ℕ
answer = plain action_response_normal_with_data

answered :
    hls_meter_data_is_valid no_cipher
      (at_hls_done answering no_cipher challenging).authentication
      byte_16
      (at_hls_done answering no_cipher challenging)
    ≡ ok true
unfolding hls_meter_data_is_valid common_is_valid padded_secret
answered = refl

answer-Verified :
    Verified answering no_cipher
      (at_hls_done answering no_cipher challenging)
      action_response_normal_with_data
answer-Verified = record {
  of_class = refl;
  succeeded = refl;
  input = byte_16;
  input_read = refl;
  valid = answered;
}

-- Both ends of the GMAC exchange: the meter answers the challenge 11 12 with its counter 258.
abbrev gmac_client : DlmsConnection ℕ
gmac_client = record (waiting awaiting_hls_client_challenge_result []) {
  authentication = high_level_gmac (11 ∷ 12 ∷ []);
}

abbrev gmac_meter : DlmsConnection ℕ
gmac_meter = record connection {
  meter_to_client_challenge = some (11 ∷ 12 ∷ []);
  client_invocation_counter = 258;
}

abbrev gmac_answer : List ℕ
gmac_answer = 16 ∷ 0 ∷ 0 ∷ 1 ∷ 2 ∷ 1 ∷ 2 ∷ 3 ∷ 4 ∷ 5 ∷ 6 ∷ 7 ∷ 8 ∷ 9 ∷ 10 ∷ 11 ∷ 12 ∷ []

gmac_generated :
    hls_generate_reply_data no_cipher (high_level_gmac (21 ∷ [])) gmac_meter ≡ ok gmac_answer
unfolding hls_generate_reply_data gmac_reply Ciphers.gmac prepare validate_key key_length
    Control.make Control.to_bytes
gmac_generated = refl

gmac-Mirrors : Mirrors gmac_client gmac_meter (11 ∷ 12 ∷ [])
gmac-Mirrors = record {
  first = 1;
  others = 2 ∷ 3 ∷ 4 ∷ 5 ∷ 6 ∷ 7 ∷ 8 ∷ [];
  title = refl;
  title_known = refl;
  challenge_known = refl;
  encryption_key = refl;
  authentication_key = refl;
}

accept-gmac_reply_example :
    accept (record codec { action_data = λ b. ok gmac_answer }) no_cipher gmac_client answer
    ≡ (record gmac_client { state = ready; buffer = [] }, ok answer)
accept-gmac_reply_example =
    accept-gmac_reply (record codec { action_data = λ b. ok gmac_answer }) no_cipher no_cipher-IsGcm
      gmac_client gmac_meter action_response_normal_with_data (11 ∷ 12 ∷ []) (21 ∷ []) gmac_answer
      refl refl gmac-Mirrors gmac_generated refl refl refl

accept-challenge_result_example :
    (b : EventType) × (answer ≡ plain b)
    × Verified answering no_cipher (at_hls_done answering no_cipher challenging) b
accept-challenge_result_example =
    accept-challenge_result answering no_cipher challenging answer refl (
      ap (λ p. p.0.state)
        (accept-Verified answering no_cipher challenging action_response_normal_with_data refl
          answer-Verified))

abbrev hello : List ℕ
hello = 104 ∷ 101 ∷ []

sealed_hello :
    Ciphers.encrypt no_cipher control connection.client_system_title 5 byte_16 hello byte_16
    ≡ ok (104 ∷ 101 ∷ 1 ∷ 2 ∷ 3 ∷ 4 ∷ 5 ∷ 6 ∷ 7 ∷ 8 ∷ 9 ∷ 10 ∷ 11 ∷ 12 ∷ [])
unfolding Ciphers.encrypt prepare validate_key key_length Control.to_bytes
sealed_hello = refl

decrypt-encrypt_example :
    Ciphers.decrypt no_cipher control connection.client_system_title 5 byte_16
      (104 ∷ 101 ∷ 1 ∷ 2 ∷ 3 ∷ 4 ∷ 5 ∷ 6 ∷ 7 ∷ 8 ∷ 9 ∷ 10 ∷ 11 ∷ 12 ∷ [])
      byte_16
    ≡ ok hello
decrypt-encrypt_example =
    decrypt-encrypt no_cipher no_cipher-IsAead control connection.client_system_title 5 byte_16
      hello byte_16 _ sealed_hello

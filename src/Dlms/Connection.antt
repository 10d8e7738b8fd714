-- ===== src/Dlms/Connection.antt =====
-- DlmsConnection (dlms_cosem/connection.py): its state, and the protection of APDUs. A method
-- returns the connection as it leaves it, also where it raises.
use dlms_cosem.Prelude.{
  ℕ, ◌+◌, Bool, true, false, ◌||◌, Option, none, some, List, [], ◌∷◌, leb, if◌then◌else◌, Result,
  ok, raise, ◌>>=◌, ◌>>◌, protection_error, local_dlms_protocol_error, runtime_error,
}
use dlms_cosem.Association.State.{DlmsState}
use dlms_cosem.Security.Control.{SecurityControlField}
use dlms_cosem.Security.Control
use dlms_cosem.Security.Ciphers.{Cryptography}
use dlms_cosem.Security.Ciphers
use dlms_cosem.Security.Methods.{AuthenticationMethod}
use dlms_cosem.Dlms.Apdu.{
  Content, initiate_request, global_cipher_initiate_request, initiate_response,
  global_cipher_initiate_response, Apdu, aarq, aare, rlrq, rlre, general_global_cipher, plain,
  ApduCodec,
}

pub record DlmsConnectionSettings : Type 0 where
  pub use_rlrq_rlre : Bool
  pub empty_system_title_in_general_glo_ciphering : Bool

pub record DlmsConnection (Conformance : Type 0) : Type 0 where
  pub authentication : AuthenticationMethod
  pub client_system_title : List ℕ
  pub global_encryption_key : Option (List ℕ)
  pub global_authentication_key : Option (List ℕ)
  pub security_suite : ℕ
  pub meter_system_title : Option (List ℕ)
  pub authentication_method : Option ℕ
  pub meter_to_client_challenge : Option (List ℕ)
  pub client_invocation_counter : ℕ
  pub meter_invocation_counter : ℕ
  pub max_pdu_size : ℕ
  pub is_pre_established : Bool
  pub buffer : List ℕ
  pub state : DlmsState
  pub conformance : Conformance
  pub settings : DlmsConnectionSettings

-- `bool(x)` of an optional byte string.
abbrev pub present : Option (List ℕ) → Bool
present none = false
present (some []) = false
present (some (b ∷ bs)) = true

-- `if not x: raise e`, and the bytes otherwise.
abbrev pub needed : Option (List ℕ) → Result (List ℕ)
needed none = raise protection_error
needed (some []) = raise protection_error
needed (some (b ∷ bs)) = ok (b ∷ bs)

-- `x is not None`
abbrev pub is_some : Option (List ℕ) → Bool
is_some none = false
is_some (some bs) = true

module _ {Conformance : Type 0} where
  unfoldable pub security_control : DlmsConnection Conformance → Result SecurityControlField
  security_control c =
      Control.make c.security_suite (present c.global_authentication_key)
        (present c.global_encryption_key) false false

  unfoldable pub use_protection : DlmsConnection Conformance → Bool
  use_protection c = is_some c.global_encryption_key || is_some c.global_authentication_key

  unfoldable pub update_meter_invocation_counter :
      DlmsConnection Conformance → ℕ → DlmsConnection Conformance × Result (Unit {0})
  update_meter_invocation_counter c received =
      if leb received c.meter_invocation_counter
      then (c, raise local_dlms_protocol_error)
      else (record c { meter_invocation_counter = received }, ok tt)

module _ {Conformance : Type 0} (cryptography : Cryptography) where
  -- The ciphertext of `encrypt`, before the counter moves.
  unfoldable pub cipher : DlmsConnection Conformance → List ℕ → Result (List ℕ)
  unfolding security_control
  cipher c plain_text = do
    key ← needed c.global_encryption_key
    auth_key ← needed c.global_authentication_key
    control ← security_control c
    Ciphers.encrypt cryptography control c.client_system_title c.client_invocation_counter key
        plain_text auth_key

  unfoldable pub counted :
      DlmsConnection Conformance
      → Result (List ℕ)
      → DlmsConnection Conformance × Result (List ℕ × ℕ)
  counted c (raise e) = (c, raise e)
  counted c (ok ciphered_text) = (
    record c { client_invocation_counter = c.client_invocation_counter + 1 },
    ok (ciphered_text, c.client_invocation_counter),
  )

  unfoldable pub encrypt :
      DlmsConnection Conformance → List ℕ → DlmsConnection Conformance × Result (List ℕ × ℕ)
  unfolding counted
  encrypt c plain_text = counted c (cipher c plain_text)

  unfoldable pub decrypt : DlmsConnection Conformance → List ℕ → Result (List ℕ)
  unfolding security_control
  decrypt c ciphered_text = do
    key ← needed c.global_encryption_key
    auth_key ← needed c.global_authentication_key
    title ← needed c.meter_system_title
    control ← security_control c
    Ciphers.decrypt cryptography control title c.meter_invocation_counter key ciphered_text auth_key

module _ {Body Conformance : Type 0} (codec : ApduCodec Body Conformance)
    (cryptography : Cryptography) where
  -- Encrypts bytes that may have failed to come about.
  unfoldable pub encrypt_bytes :
      DlmsConnection Conformance
      → Result (List ℕ)
      → DlmsConnection Conformance × Result (List ℕ × ℕ)
  encrypt_bytes c (raise e) = (c, raise e)
  encrypt_bytes c (ok bytes) = encrypt cryptography c bytes

  unfoldable pub ciphered_content :
      DlmsConnection Conformance → List ℕ × ℕ → Result (Option (Content Body Conformance))
  unfolding security_control
  ciphered_content c (ciphered_text, counter) = do
    control ← security_control c
    ok (
        some (
          global_cipher_initiate_request (record {
            security_control = control;
            invocation_counter = counter;
            ciphered_text = ciphered_text;
          })))

  -- `protect` on the user information of an AARQ or RLRQ.
  unfoldable pub protect_content :
      DlmsConnection Conformance
      → Option (Content Body Conformance)
      → DlmsConnection Conformance × Result (Option (Content Body Conformance))
  unfolding encrypt_bytes ciphered_content
  protect_content c none = (c, ok none)
  protect_content c (some content) =
      let (c', sealed) = encrypt_bytes c (codec.content_to_bytes content) in
      (c', sealed >>= ciphered_content c)

  unfoldable pub ciphered_apdu :
      DlmsConnection Conformance → List ℕ × ℕ → Result (Apdu Body Conformance)
  unfolding security_control
  ciphered_apdu c (ciphered_text, counter) = do
    control ← security_control c
    ok (
        general_global_cipher (record {
          system_title =
              if c.settings.empty_system_title_in_general_glo_ciphering
              then none
              else some c.client_system_title;
          security_control = control;
          invocation_counter = counter;
          ciphered_text = ciphered_text;
        }))

  -- `protect` on an xDLMS APDU.
  unfoldable pub protect_xdlms :
      DlmsConnection Conformance
      → Apdu Body Conformance
      → DlmsConnection Conformance × Result (Apdu Body Conformance)
  unfolding encrypt_bytes ciphered_apdu
  protect_xdlms c event =
      let (c', sealed) = encrypt_bytes c (codec.to_bytes event) in (c', sealed >>= ciphered_apdu c)

  unfoldable pub protect :
      DlmsConnection Conformance
      → Apdu Body Conformance
      → DlmsConnection Conformance × Result (Apdu Body Conformance)
  unfolding protect_content protect_xdlms
  protect c (aarq r) =
      let (c', content) = protect_content c r.user_information in
      (c', content >>= λ u. ok (aarq (record r { user_information = u })))
  protect c (rlrq r) =
      let (c', content) = protect_content c r.user_information in
      (c', content >>= λ u. ok (rlrq (record r { user_information = u })))
  protect c (general_global_cipher g) = protect_xdlms c (general_global_cipher g)
  protect c (plain b) =
      if codec.is_xdlms b then protect_xdlms c (plain b) else (c, raise runtime_error)
  protect c (aare r) = (c, raise runtime_error)
  protect c (rlre r) = (c, raise runtime_error)

  -- `unprotect` on the user information of an AARE or RLRE.
  unfoldable pub unprotect_content :
      DlmsConnection Conformance
      → Option (Content Body Conformance)
      → DlmsConnection Conformance × Result (Option (Content Body Conformance))
  unfolding update_meter_invocation_counter decrypt
  unprotect_content c (some (global_cipher_initiate_response ciphered)) =
      let (c', fresh) = update_meter_invocation_counter c ciphered.invocation_counter in
      (
        c',
        fresh >> (do
          plain_text ← decrypt cryptography c' ciphered.ciphered_text
          response ← codec.initiate_response_from_bytes plain_text
          ok (some (initiate_response response))),
      )
  unprotect_content c (some (initiate_request b)) = (c, ok (some (initiate_request b)))
  unprotect_content c (some (global_cipher_initiate_request g)) =
      (c, ok (some (global_cipher_initiate_request g)))
  unprotect_content c (some (initiate_response r)) = (c, ok (some (initiate_response r)))
  unprotect_content c none = (c, ok none)

  unfoldable pub unprotect :
      DlmsConnection Conformance
      → Apdu Body Conformance
      → DlmsConnection Conformance × Result (Apdu Body Conformance)
  unfolding unprotect_content
  unprotect c (aare r) =
      let (c', content) = unprotect_content c r.user_information in
      (c', content >>= λ u. ok (aare (record r { user_information = u })))
  unprotect c (rlre r) =
      let (c', content) = unprotect_content c r.user_information in
      (c', content >>= λ u. ok (rlre (record r { user_information = u })))
  unprotect c (general_global_cipher g) =
      let (c', fresh) = update_meter_invocation_counter c g.invocation_counter in
      (
        c',
        fresh >> (do
          plain_text ← decrypt cryptography c' g.ciphered_text
          codec.apdu_from_bytes plain_text),
      )
  unprotect c (aarq r) = (c, ok (aarq r))
  unprotect c (rlrq r) = (c, ok (rlrq r))
  unprotect c (plain b) = (c, ok (plain b))

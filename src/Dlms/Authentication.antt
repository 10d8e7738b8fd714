-- ===== src/Dlms/Authentication.antt =====
-- The HLS exchange of the authentication methods of dlms_cosem/security.py, which read the
-- connection. The name ProtectionError is imported there for type checking only, so that raising it
-- is a NameError.
use dlms_cosem.Prelude.{
  ℕ, zero, suc, ◌-◌, Bool, true, false, Option, none, some, List, [], ◌∷◌, ◌++◌, length, drop,
  slice, leb, if◌then◌else◌, bytes_eq, Result, ok, raise, ◌>>=◌, or_raise, runtime_error,
  name_error, local_dlms_protocol_error, value_error, type_error, byte_at, int_to_bytes,
  int_from_bytes,
}
use dlms_cosem.Security.Control
use dlms_cosem.Security.Ciphers.{Cryptography, tag_length, gmac}
use dlms_cosem.Security.Methods.{
  AuthenticationMethod, no_security, low_level, high_level_gmac, high_level_common,
}
use dlms_cosem.Dlms.Connection.{DlmsConnection}

-- `if not x: raise e`, and the bytes otherwise.
abbrev pub present_or {ℓ} :
    {A : Type ℓ} → Result A → Option (List ℕ) → (List ℕ → Result A) → Result A
present_or absent none next = absent
present_or absent (some []) next = absent
present_or absent (some (b ∷ bs)) next = next (b ∷ bs)

-- `bytes(n)`
abbrev zeros : ℕ → List ℕ
zeros zero = []
zeros (suc n) = 0 ∷ zeros n

-- `padded_secret`: `bytes` refuses a negative number.
unfoldable pub padded_secret : List ℕ → Result (List ℕ)
padded_secret secret =
    if leb (length secret) 16 then ok (secret ++ zeros (16 - length secret)) else raise value_error

module _ (cryptography : Cryptography) where
  unfoldable pub common_is_valid : List ℕ → List ℕ → Result Bool
  unfolding padded_secret
  common_is_valid secret input = do
    key ← padded_secret secret
    calculated ← cryptography.aes_ecb key secret
    ok (bytes_eq input calculated)

module _ {Conformance : Type 0} (cryptography : Cryptography) where
  unfoldable pub gmac_reply : DlmsConnection Conformance → Result (List ℕ)
  gmac_reply c =
      present_or (raise local_dlms_protocol_error) c.meter_to_client_challenge λ challenge.
        present_or (raise name_error) c.global_encryption_key λ key.
          present_or (raise name_error) c.global_authentication_key λ auth_key. (do
            control ← Control.make c.security_suite true false false false
            gmac_result ←
                gmac cryptography control c.client_system_title c.client_invocation_counter key
                  auth_key challenge
            control_bytes ← Control.to_bytes control
            counter ← int_to_bytes 4 c.client_invocation_counter
            ok (control_bytes ++ (counter ++ gmac_result)))

  common_reply : List ℕ → DlmsConnection Conformance → Result (List ℕ)
  unfolding padded_secret
  common_reply secret c = do
    key ← padded_secret secret
    challenge ← or_raise type_error c.meter_to_client_challenge
    cryptography.aes_ecb key challenge

  unfoldable pub hls_generate_reply_data :
      AuthenticationMethod → DlmsConnection Conformance → Result (List ℕ)
  unfolding gmac_reply common_reply
  hls_generate_reply_data no_security c = raise runtime_error
  hls_generate_reply_data (low_level secret) c = raise runtime_error
  hls_generate_reply_data (high_level_gmac challenge) c = gmac_reply c
  hls_generate_reply_data (high_level_common secret) c = common_reply secret c

  unfoldable pub gmac_is_valid : List ℕ → List ℕ → DlmsConnection Conformance → Result Bool
  gmac_is_valid challenge input c = do
    first ← byte_at input 0
    control_byte ← int_to_bytes 1 first
    control ← Control.from_bytes control_byte
    let counter = int_from_bytes (slice input 1 5)
    let gmac_result = drop (length input - tag_length) input
    present_or (raise name_error) c.global_encryption_key λ key.
        present_or (raise name_error) c.global_authentication_key λ auth_key.
          present_or (raise name_error) c.meter_system_title λ title. (do
            correct_gmac ← gmac cryptography control title counter key auth_key challenge
            ok (bytes_eq gmac_result correct_gmac))

  unfoldable pub hls_meter_data_is_valid :
      AuthenticationMethod → List ℕ → DlmsConnection Conformance → Result Bool
  unfolding gmac_is_valid common_is_valid
  hls_meter_data_is_valid no_security input c = raise runtime_error
  hls_meter_data_is_valid (low_level secret) input c = raise runtime_error
  hls_meter_data_is_valid (high_level_gmac challenge) input c = gmac_is_valid challenge input c
  hls_meter_data_is_valid (high_level_common secret) input c =
      common_is_valid cryptography secret input

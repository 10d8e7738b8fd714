-- ===== src/Security/Ciphers.antt =====
-- The ciphers of dlms_cosem/security.py. The cryptography package is a parameter: AES-GCM and the
-- AES key wrap.
use dlms_cosem.Prelude.{
  ℕ, ◌-◌, not, ◌&&◌, List, [], ◌++◌, ◌==◌, if◌then◌else◌, length, take, drop, Result, ok, raise,
  ◌>>=◌, ◌>>◌, require, value_error, key_error, not_implemented_error, ciphering_error,
  int_to_bytes,
}
use dlms_cosem.Security.Control
use dlms_cosem.Security.Control.{SecurityControlField}

abbrev pub tag_length : ℕ
tag_length = 12

-- `key_lengths[suite]`
unfoldable pub key_length : ℕ → Result ℕ
key_length suite =
    if suite == 0
    then ok 16
    else if suite == 1
    then ok 16
    else if suite == 2
    then ok 32
    else raise key_error

unfoldable pub validate_key : ℕ → List ℕ → Result (Unit {0})
unfolding key_length
validate_key suite key = do
  expected ← key_length suite
  require (length key == expected) value_error

-- What the code takes from the cryptography package. `encryptor` gives the ciphertext and the whole
-- authentication tag for a key, an initialization vector, associated data and a plaintext;
-- `decryptor` the plaintext for a truncated tag, or the exception that it raises, where
-- InvalidTag stands as the DecryptionError that it is turned into.
pub record Cryptography : Type 0 where
  pub encryptor : List ℕ → List ℕ → List ℕ → List ℕ → List ℕ × List ℕ
  pub decryptor : List ℕ → List ℕ → List ℕ → List ℕ → List ℕ → Result (List ℕ)
  pub aes_key_wrap : List ℕ → List ℕ → Result (List ℕ)
  pub aes_key_unwrap : List ℕ → List ℕ → Result (List ℕ)
  pub aes_ecb : List ℕ → List ℕ → Result (List ℕ)

-- The checks before a key is used, and the initialization vector and associated data.
unfoldable pub prepare :
    SecurityControlField → List ℕ → ℕ → List ℕ → List ℕ → Result (List ℕ × List ℕ)
unfolding validate_key
prepare security_control system_title invocation_counter key auth_key = do
  require (length system_title == 8) value_error
  counter ← int_to_bytes 4 invocation_counter
  validate_key security_control.security_suite key
  validate_key security_control.security_suite auth_key
  control ← Control.to_bytes security_control
  ok (system_title ++ counter, control ++ auth_key)

abbrev pub is_protecting : SecurityControlField → Result (Unit {0})
is_protecting security_control =
    require (not (not security_control.encrypted && not security_control.authenticated))
      not_implemented_error

-- The ciphertext with the first bytes of the tag.
abbrev pub with_tag : List ℕ × List ℕ → List ℕ
with_tag (ciphertext, tag) = ciphertext ++ take tag_length tag

module _ (cryptography : Cryptography) where
  unfoldable pub encrypt :
      SecurityControlField → List ℕ → ℕ → List ℕ → List ℕ → List ℕ → Result (List ℕ)
  unfolding prepare
  encrypt security_control system_title invocation_counter key plain_text auth_key = do
    is_protecting security_control
    (iv, associated_data) ← prepare security_control system_title invocation_counter key auth_key
    ok (with_tag (cryptography.encryptor key iv associated_data plain_text))

  unfoldable pub decrypt :
      SecurityControlField → List ℕ → ℕ → List ℕ → List ℕ → List ℕ → Result (List ℕ)
  unfolding prepare
  decrypt security_control system_title invocation_counter key cipher_text auth_key = do
    is_protecting security_control
    (iv, associated_data) ← prepare security_control system_title invocation_counter key auth_key
    let at = length cipher_text - tag_length
    cryptography.decryptor key iv associated_data (take at cipher_text) (drop at cipher_text)

  -- All of the input is associated data.
  unfoldable pub gmac :
      SecurityControlField → List ℕ → ℕ → List ℕ → List ℕ → List ℕ → Result (List ℕ)
  unfolding prepare
  gmac security_control system_title invocation_counter key auth_key challenge = do
    require (not security_control.encrypted) ciphering_error
    (iv, associated_data) ← prepare security_control system_title invocation_counter key auth_key
    ok (with_tag (cryptography.encryptor key iv (associated_data ++ challenge) []))

  unfoldable pub wrap_key : SecurityControlField → List ℕ → List ℕ → Result (List ℕ)
  unfolding validate_key
  wrap_key security_control wrapping_key key_to_wrap = do
    validate_key security_control.security_suite wrapping_key
    validate_key security_control.security_suite key_to_wrap
    cryptography.aes_key_wrap wrapping_key key_to_wrap

  unfoldable pub unwrap_key : SecurityControlField → List ℕ → List ℕ → Result (List ℕ)
  unfolding validate_key
  unwrap_key security_control wrapping_key wrapped_key = do
    validate_key security_control.security_suite wrapping_key
    validate_key security_control.security_suite wrapped_key
    cryptography.aes_key_unwrap wrapping_key wrapped_key

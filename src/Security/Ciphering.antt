-- ===== src/Security/Ciphering.antt =====
-- Encrypting and decrypting, wrapping and unwrapping (dlms_cosem/security.py).
use dlms_cosem.Prelude.{
  ℕ, ◌+◌, ◌-◌, ◌≡◌, refl, arith, List, length, take, drop, length-append, length-take, take_prefix,
  drop_prefix, ok, raise, >>=-eq-ok, value_error,
}
use mathlib.Core.Path.{subst}
use dlms_cosem.Security.Control.{SecurityControlField}
use dlms_cosem.Security.Ciphers.{
  Cryptography, tag_length, with_tag, is_protecting, prepare, encrypt, decrypt, validate_key,
  wrap_key, unwrap_key,
}

module _ (cryptography : Cryptography) where
  -- AES-GCM: a tag is 16 bytes, and the same key, vector and associated data give the plaintext
  -- back for the first bytes of the tag.
  pub record IsAead : Type 0 where
    pub length-tag :
        (key iv associated plain : List ℕ)
        → length (cryptography.encryptor key iv associated plain).1 ≡ 16
    pub opens :
        (key iv associated plain : List ℕ)
        → cryptography.decryptor key iv associated
            (cryptography.encryptor key iv associated plain).0
            (take tag_length (cryptography.encryptor key iv associated plain).1)
          ≡ ok plain

  -- RFC 3394: a wrapped key is eight bytes longer than the key.
  abbrev pub WrapGrows : Type 0
  WrapGrows =
      (wrapping key wrapped : List ℕ)
      → cryptography.aes_key_wrap wrapping key ≡ ok wrapped
      → length wrapped ≡ length key + 8

  opened :
      IsAead
      → (key iv associated plain : List ℕ) (n : ℕ)
      → n ≡ length (with_tag (cryptography.encryptor key iv associated plain)) - tag_length
      → cryptography.decryptor key iv associated
          (take n (with_tag (cryptography.encryptor key iv associated plain)))
          (drop n (with_tag (cryptography.encryptor key iv associated plain)))
        ≡ ok plain
  opened aead key iv associated plain n e =
      let sealed = cryptography.encryptor key iv associated plain in
      let tag : List ℕ = take tag_length sealed.1 in
      let at : n ≡ length sealed.0 = omega (
        arith,
        length-append sealed.0 tag,
        length-take tag_length sealed.1,
        aead.length-tag key iv associated plain,
      ) in
      rw (take_prefix sealed.0 tag n at)
        (rw (drop_prefix sealed.0 tag n at) (aead.opens key iv associated plain))

  -- What was encrypted under a security control, title, counter and keys is decrypted under the same
  -- to the plaintext, for a cipher that is an AEAD.
  pub decrypt-encrypt :
      IsAead
      → (control : SecurityControlField) (title : List ℕ) (counter : ℕ)
        (key plain auth sealed : List ℕ)
      → encrypt cryptography control title counter key plain auth ≡ ok sealed
      → decrypt cryptography control title counter key sealed auth ≡ ok plain
  unfolding encrypt decrypt
  decrypt-encrypt aead control title counter key plain auth sealed h =
      let (_, p, h') = >>=-eq-ok (is_protecting control) _ h in
      let ((iv, associated), q, e) = >>=-eq-ok (prepare control title counter key auth) _ h' in
      let s : with_tag (cryptography.encryptor key iv associated plain) ≡ sealed = cc e in
      rw p (
        rw q (
          subst
            (λ (t : List ℕ).
              cryptography.decryptor key iv associated (take (length t - tag_length) t)
                (drop (length t - tag_length) t)
              ≡ ok plain)
            s (opened aead key iv associated plain _ refl)))

  -- A key that was wrapped is never unwrapped under the same suite: its length is checked as that of
  -- a key, which it exceeds by eight bytes, and a ValueError is raised.
  pub unwrap_key-wrap_key :
      WrapGrows
      → (control : SecurityControlField) (wrapping key wrapped : List ℕ)
      → wrap_key cryptography control wrapping key ≡ ok wrapped
      → unwrap_key cryptography control wrapping wrapped ≡ raise value_error
  unfolding wrap_key unwrap_key validate_key
  unwrap_key-wrap_key grows control wrapping key wrapped h =
      ground (arith, grows wrapping key wrapped)

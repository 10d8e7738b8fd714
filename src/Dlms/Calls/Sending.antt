-- ===== src/Dlms/Calls/Sending.antt =====
-- DlmsConnection.send (dlms_cosem/connection.py): what its single changes keep, it keeps.
use dlms_cosem.Prelude.{
  List, ℕ, inl, inr, Bool, true, false, not, ◌&&◌, Bool-cases, Option, none, some, Result, ok,
  raise,
}
use dlms_cosem.Association.State.{end_association}
use dlms_cosem.Security.Ciphers.{Cryptography}
use dlms_cosem.Dlms.Apdu.{
  Content, Apdu, aarq, aare, rlrq, rlre, general_global_cipher, plain, ApduCodec, type_of,
}
use dlms_cosem.Dlms.Connection.{
  DlmsConnection, use_protection, encrypt_bytes, protect_content, protect,
}
use dlms_cosem.Dlms.Operations.{
  send_accepted, send_protected, end_without_release, write, protect_if, send, is_acse_request,
  is_release_request,
}
use dlms_cosem.Dlms.Calls.{IsKept, after_keeps}

module _ {Body Conformance : Type 0}
    {R : DlmsConnection Conformance → DlmsConnection Conformance → Type 0} (kept : IsKept R)
    (codec : ApduCodec Body Conformance) (cryptography : Cryptography) where
  encrypt_bytes_keeps :
      (c : DlmsConnection Conformance) (bs : Result (List ℕ))
      → R c (encrypt_bytes codec cryptography c bs).0
  unfolding encrypt_bytes
  encrypt_bytes_keeps c (raise e) = kept.reflexive c
  encrypt_bytes_keeps c (ok bs) = kept.after_encryption cryptography c bs

  protect_content_keeps :
      (c : DlmsConnection Conformance) (u : Option (Content Body Conformance))
      → R c (protect_content codec cryptography c u).0
  unfolding protect_content
  protect_content_keeps c none = kept.reflexive c
  protect_content_keeps c (some u) = encrypt_bytes_keeps c (codec.content_to_bytes u)

  pub protect_keeps :
      (c : DlmsConnection Conformance) (a : Apdu Body Conformance)
      → R c (protect codec cryptography c a).0
  unfolding protect
  protect_keeps c (aarq r) = protect_content_keeps c r.user_information
  protect_keeps c (rlrq r) = protect_content_keeps c r.user_information
  protect_keeps c (general_global_cipher g) =
      encrypt_bytes_keeps c (codec.to_bytes (general_global_cipher g))
  protect_keeps c (plain b) = elim (Bool-cases (codec.is_xdlms b)) [
    | inl x ↦ rw x (encrypt_bytes_keeps c (codec.to_bytes (plain b)))
    | inr x ↦ rw x (kept.reflexive c)
  ]
  protect_keeps c (aare r) = kept.reflexive c
  protect_keeps c (rlre r) = kept.reflexive c

  protect_if_keeps :
      (b : Bool) (c : DlmsConnection Conformance) (a : Apdu Body Conformance)
      → R c (protect_if codec cryptography b c a).0
  unfolding protect_if
  protect_if_keeps true c a = protect_keeps c a
  protect_if_keeps false c a = kept.reflexive c

  send_protected_keeps :
      (c : DlmsConnection Conformance) (a : Apdu Body Conformance)
      → R c (send_protected codec cryptography c a).0
  unfolding send_protected write
  send_protected_keeps c a =
      after_keeps kept c _ _ (protect_if_keeps (use_protection c) c a) (λ d s. kept.reflexive d)

  send_accepted_keeps :
      (c : DlmsConnection Conformance) (a : Apdu Body Conformance)
      → R c (send_accepted codec cryptography c a).0
  unfolding send_accepted
  send_accepted_keeps c a =
      after_keeps kept c _ _ (kept.after_transition c (type_of codec a))
        (λ d _. send_protected_keeps d a)

  end_keeps : (c : DlmsConnection Conformance) → R c (end_without_release codec cryptography c).0
  unfolding end_without_release
  end_keeps c =
      after_keeps kept c _ _ (kept.after_transition c end_association) (λ d _. kept.reflexive d)

  pub send_keeps :
      (c : DlmsConnection Conformance) (a : Apdu Body Conformance)
      → R c (send codec cryptography c a).0
  unfolding send
  send_keeps c a = elim (Bool-cases (c.is_pre_established && is_acse_request a)) [
    | inl p ↦ rw p (kept.reflexive c)
    | inr p ↦ rw p (elim (Bool-cases (not c.settings.use_rlrq_rlre && is_release_request a)) [
      | inl r ↦ rw r (end_keeps c)
      | inr r ↦ rw r (send_accepted_keeps c a)
    ])
  ]

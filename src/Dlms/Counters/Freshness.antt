-- ===== src/Dlms/Counters/Freshness.antt =====
-- The operations of DlmsConnection (dlms_cosem/connection.py) in any order, and the counters of the
-- APDUs that it sends and accepts.
use dlms_cosem.Prelude.{
  ℕ, ◌+◌, ◌≡◌, refl, arith, Bool, true, false, Option, none, some, List, Result, ok, raise, ◌>>=◌,
  if◌then◌else◌, >>=-eq-ok, ◌∙◌, ap, sym, runtime_error,
}
use dlms_cosem.Security.Ciphers.{Cryptography}
use dlms_cosem.Dlms.Apdu.{
  Content, AssociationRequest, Apdu, aarq, aare, rlrq, rlre, general_global_cipher, plain,
  ApduCodec,
}
use dlms_cosem.Dlms.Connection.{
  DlmsConnection, encrypt, ciphered_apdu, ciphered_content, protect, protect_content, protect_xdlms,
  encrypt_bytes,
}
use dlms_cosem.Dlms.Counters.{counter_of, counter_of_content, Grows, Grows-kept}
use dlms_cosem.Dlms.Calls.{Operation, perform_all}
use dlms_cosem.Dlms.Calls.Receiving.{perform_all_keeps}

module _ {Body Conformance : Type 0} (codec : ApduCodec Body Conformance)
    (cryptography : Cryptography) where
  -- Whatever sequence of calls of `send`, `receive_data` and `next_event` is made, raising or not,
  -- neither invocation counter of the connection is lower after it than before it.
  pub perform_all-Grows :
      (c : DlmsConnection Conformance) (os : List (Operation Body Conformance))
      → Grows c (perform_all codec cryptography c os)
  perform_all-Grows = perform_all_keeps Grows-kept codec cryptography

  -- The protected APDU that a call returns.
  pub record Numbered (c d : DlmsConnection Conformance) (sent : Apdu Body Conformance)
      : Type 0 where
    pub number : counter_of sent ≡ some c.client_invocation_counter
    pub moved : d.client_invocation_counter ≡ c.client_invocation_counter + 1

  encrypt-counts :
      (c : DlmsConnection Conformance) (bs : List ℕ) (sealed : List ℕ × ℕ)
      → (encrypt cryptography c bs).1 ≡ ok sealed
      → (sealed.1 ≡ c.client_invocation_counter)
        × ((encrypt cryptography c bs).0.client_invocation_counter
            ≡ c.client_invocation_counter + 1)
  unfolding encrypt
  encrypt-counts c bs sealed e = ground arith

  bytes-counts :
      (c : DlmsConnection Conformance) (bs : Result (List ℕ)) (sealed : List ℕ × ℕ)
      → (encrypt_bytes codec cryptography c bs).1 ≡ ok sealed
      → (sealed.1 ≡ c.client_invocation_counter)
        × ((encrypt_bytes codec cryptography c bs).0.client_invocation_counter
            ≡ c.client_invocation_counter + 1)
  unfolding encrypt_bytes
  bytes-counts c (raise x) sealed e = ground arith
  bytes-counts c (ok bs) sealed e = encrypt-counts c bs sealed e

  ciphered_apdu-number :
      (c : DlmsConnection Conformance) (sealed : List ℕ × ℕ) (b : Apdu Body Conformance)
      → ciphered_apdu codec cryptography c sealed ≡ ok b
      → counter_of b ≡ some sealed.1
  unfolding ciphered_apdu
  ciphered_apdu-number c sealed b e = ground arith

  ciphered_content-number :
      (c : DlmsConnection Conformance) (sealed : List ℕ × ℕ) (u : Option (Content Body Conformance))
      → ciphered_content codec cryptography c sealed ≡ ok u
      → counter_of_content u ≡ some sealed.1
  unfolding ciphered_content
  ciphered_content-number c sealed u e = ground arith

  xdlms-Numbered :
      (c : DlmsConnection Conformance) (a b : Apdu Body Conformance)
      → (protect_xdlms codec cryptography c a).1 ≡ ok b
      → Numbered c (protect_xdlms codec cryptography c a).0 b
  unfolding protect_xdlms
  xdlms-Numbered c a b e =
      let (sealed, e1, e2) =
        >>=-eq-ok (encrypt_bytes codec cryptography c (codec.to_bytes a)).1
          (ciphered_apdu codec cryptography c) e in
      let (number, moved) = bytes-counts c (codec.to_bytes a) sealed e1 in
      record { number = ciphered_apdu-number c sealed b e2 ∙ ap some number; moved = moved }

  content-Numbered :
      (c : DlmsConnection Conformance) (u u' : Option (Content Body Conformance)) (n : ℕ)
      → (protect_content codec cryptography c u).1 ≡ ok u'
      → counter_of_content u' ≡ some n
      → (counter_of_content u' ≡ some c.client_invocation_counter)
        × ((protect_content codec cryptography c u).0.client_invocation_counter
            ≡ c.client_invocation_counter + 1)
  unfolding protect_content
  content-Numbered c none u' n e f = ground arith
  content-Numbered c (some u) u' n e f =
      let (sealed, e1, e2) =
        >>=-eq-ok (encrypt_bytes codec cryptography c (codec.content_to_bytes u)).1
          (ciphered_content codec cryptography c) e in
      let (number, moved) = bytes-counts c (codec.content_to_bytes u) sealed e1 in
      (ciphered_content-number c sealed u' e2 ∙ ap some number, moved)

  -- The AARQ and the RLRQ, which differ in the constructor.
  request-Numbered :
      (build : AssociationRequest Body Conformance → Apdu Body Conformance)
      (same : (r : AssociationRequest Body Conformance)
        → counter_of (build r) ≡ counter_of_content r.user_information)
      (c : DlmsConnection Conformance) (r : AssociationRequest Body Conformance)
      (b : Apdu Body Conformance) (n : ℕ)
      → ((protect_content codec cryptography c r.user_information).1 >>= λ u.
          ok (build (record r { user_information = u })))
        ≡ ok b
      → counter_of b ≡ some n
      → Numbered c (protect_content codec cryptography c r.user_information).0 b
  request-Numbered build same c r b n e f =
      let (u, e1, e2) = >>=-eq-ok (protect_content codec cryptography c r.user_information).1 _ e in
      let built : build (record r { user_information = u }) ≡ b = cc in
      let here : counter_of b ≡ counter_of_content u =
        ap counter_of (sym built) ∙ same (record r { user_information = u }) in
      let (number, moved) = content-Numbered c r.user_information u n e1 (sym here ∙ f) in
      record { number = here ∙ number; moved = moved }

  plain-Numbered :
      (flag : Bool) (c : DlmsConnection Conformance) (p : Body) (b : Apdu Body Conformance)
      → (if flag then protect_xdlms codec cryptography c (plain p) else (c, raise runtime_error)).1
        ≡ ok b
      → Numbered c
          (if flag
            then protect_xdlms codec cryptography c (plain p)
            else (c, raise runtime_error)).0
          b
  plain-Numbered true c p b e = xdlms-Numbered c (plain p) b e
  plain-Numbered false c p b e = ground arith

  pub protect-Numbered :
      (c : DlmsConnection Conformance) (a b : Apdu Body Conformance) (n : ℕ)
      → (protect codec cryptography c a).1 ≡ ok b
      → counter_of b ≡ some n
      → Numbered c (protect codec cryptography c a).0 b
  unfolding protect
  protect-Numbered c (aarq r) b n e f = request-Numbered aarq (λ _. refl) c r b n e f
  protect-Numbered c (rlrq r) b n e f = request-Numbered rlrq (λ _. refl) c r b n e f
  protect-Numbered c (general_global_cipher g) b n e f =
      xdlms-Numbered c (general_global_cipher g) b e
  protect-Numbered c (plain p) b n e f = plain-Numbered (codec.is_xdlms p) c p b e
  protect-Numbered c (aare r) b n e f = ground arith
  protect-Numbered c (rlre r) b n e f = ground arith

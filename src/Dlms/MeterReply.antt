-- ===== src/Dlms/MeterReply.antt =====
-- The HLS exchange with GMAC (dlms_cosem/security.py): the reply that one end generates, as the other
-- end checks it.
use dlms_cosem.Prelude.{
  ℕ, ◌-◌, ◌≤◌, ◌≡◌, refl, sym, ap, ◌∙◌, arith, Option, none, some, List, [], ◌∷◌, ◌++◌, length,
  length-append, length-take, take, drop, take_prefix, drop_prefix, bytes_eq_refl, true, false,
  Result, ok, raise, >>=-eq-ok, Exception, int_to_bytes, not, require, ciphering_error,
}
use dlms_cosem.Cosem.Method.{one_byte}
use dlms_cosem.Data.Values.{unsigned-read}
use dlms_cosem.Security.Control
use dlms_cosem.Security.Control.{
  SecurityControlField, control_byte, control_byte-IsByte, make-suite, control-to_bytes,
  control-from_bytes,
}
use dlms_cosem.Security.Ciphers.{Cryptography, tag_length, with_tag, prepare, gmac}
use dlms_cosem.Security.Methods.{high_level_gmac}
use dlms_cosem.Association.State.{
  ready, awaiting_hls_client_challenge_result, action_response_normal_with_data,
}
use dlms_cosem.Dlms.Apdu.{plain, ApduCodec}
use dlms_cosem.Dlms.Connection.{DlmsConnection}
use dlms_cosem.Dlms.Authentication.{
  present_or, gmac_reply, gmac_is_valid, hls_generate_reply_data, hls_meter_data_is_valid,
}
use dlms_cosem.Dlms.Operations.{accept}
use dlms_cosem.Dlms.Handshake.{at_hls_done, accept-Verified}

-- AES-GCM: a tag is 16 bytes, and a ciphertext is as long as its plaintext.
pub record IsGcm (cryptography : Cryptography) : Type 0 where
  pub length-tag :
      (key iv associated plain : List ℕ)
      → length (cryptography.encryptor key iv associated plain).1 ≡ 16
  pub length-ciphertext :
      (key iv associated plain : List ℕ)
      → length (cryptography.encryptor key iv associated plain).0 ≡ length plain

-- Where a needed byte string leads to a result, it is there.
present_or-ok :
    {A : Type 0} (x : Exception) (o : Option (List ℕ)) (next : List ℕ → Result A) {a : A}
    → present_or (raise x) o next ≡ ok a
    → (b : ℕ) × (bs : List ℕ) × (o ≡ some (b ∷ bs)) × (next (b ∷ bs) ≡ ok a)
present_or-ok x none next e = cc
present_or-ok x (some []) next e = cc
present_or-ok x (some (b ∷ bs)) next e = (b, bs, refl, e)

ok-inj : {A : Type 0} {a b : A} → ok a ≡ ok b → a ≡ b
ok-inj e = cc e

some-inj : {A : Type 0} {a b : A} → some a ≡ some b → a ≡ b
some-inj e = cc e

module _ (cryptography : Cryptography) (gcm : IsGcm cryptography) where
  length-gmac :
      (control : SecurityControlField) (title : List ℕ) (counter : ℕ)
      (key auth challenge tag : List ℕ)
      → gmac cryptography control title counter key auth challenge ≡ ok tag
      → length tag ≡ tag_length
  unfolding gmac
  length-gmac control title counter key auth challenge tag e =
      let (_, p, e') = >>=-eq-ok (require (not control.encrypted) ciphering_error) _ e in
      let ((iv, associated), q, h) = >>=-eq-ok (prepare control title counter key auth) _ e' in
      let sealed = cryptography.encryptor key iv (associated ++ challenge) [] in
      let same : with_tag sealed ≡ tag = cc h in
      ap length (sym same)
      ∙ omega (
        arith,
        length-append sealed.0 (take tag_length sealed.1),
        length-take tag_length sealed.1,
        gcm.length-tag key iv (associated ++ challenge) [],
        gcm.length-ciphertext key iv (associated ++ challenge) [],
      )

module _ {Conformance : Type 0} where
  -- The meter's end, of the same record: it knows the challenge that the client sent, shares both
  -- keys with the client, and has the system title that the client has of the meter.
  pub record Mirrors (c meter : DlmsConnection Conformance) (challenge : List ℕ) : Type 0 where
    pub first : ℕ
    pub others : List ℕ
    pub title : meter.client_system_title ≡ first ∷ others
    pub title_known : c.meter_system_title ≡ some (first ∷ others)
    pub challenge_known : meter.meter_to_client_challenge ≡ some challenge
    pub encryption_key : c.global_encryption_key ≡ meter.global_encryption_key
    pub authentication_key : c.global_authentication_key ≡ meter.global_authentication_key

  -- The parts of a reply, and how the tag in it came about.
  record Parts (cryptography : Cryptography) (meter : DlmsConnection Conformance)
      (challenge reply : List ℕ) : Type 0 where
    pub control : SecurityControlField
    pub suite : control.security_suite ≤ 2
    pub k : ℕ
    pub ks : List ℕ
    pub key : meter.global_encryption_key ≡ some (k ∷ ks)
    pub a : ℕ
    pub auths : List ℕ
    pub auth : meter.global_authentication_key ≡ some (a ∷ auths)
    pub counter : List ℕ
    pub counter_written : int_to_bytes 4 meter.client_invocation_counter ≡ ok counter
    pub tag : List ℕ
    pub sealed :
        gmac cryptography control meter.client_system_title meter.client_invocation_counter
          (k ∷ ks)
          (a ∷ auths)
          challenge
        ≡ ok tag
    pub whole : reply ≡ control_byte control ∷ (counter ++ tag)

  reply-Parts :
      (cryptography : Cryptography) (c meter : DlmsConnection Conformance)
      (challenge reply : List ℕ)
      → Mirrors c meter challenge
      → gmac_reply cryptography meter ≡ ok reply
      → Parts cryptography meter challenge reply
  unfolding gmac_reply
  reply-Parts cryptography c meter challenge reply m e =
      let (ch, chs, ec, e1) = present_or-ok _ meter.meter_to_client_challenge _ e in
      let (k, ks, ek, e2) = present_or-ok _ meter.global_encryption_key _ e1 in
      let (a, auths, ea, e3) = present_or-ok _ meter.global_authentication_key _ e2 in
      let (control, made, e4) =
        >>=-eq-ok (Control.make meter.security_suite true false false false) _ e3 in
      let (tag, sealed, e5) = >>=-eq-ok (gmac cryptography control _ _ _ _ _) _ e4 in
      let (control_bytes, written, e6) = >>=-eq-ok (Control.to_bytes control) _ e5 in
      let (counter, counter_written, e7) =
        >>=-eq-ok (int_to_bytes 4 meter.client_invocation_counter) _ e6 in
      let suite : control.security_suite ≤ 2 = make-suite _ _ _ _ _ control made in
      let one : control_byte control ∷ [] ≡ control_bytes =
        ok-inj (sym (control-to_bytes control suite) ∙ written) in
      let same : ch ∷ chs ≡ challenge = some-inj (sym ec ∙ m.challenge_known) in
      record {
        control = control;
        suite = suite;
        k = k;
        ks = ks;
        key = ek;
        a = a;
        auths = auths;
        auth = ea;
        counter = counter;
        counter_written = counter_written;
        tag = tag;
        sealed =
            ap
              (λ ch.
                gmac cryptography control meter.client_system_title meter.client_invocation_counter
                  (k ∷ ks) (a ∷ auths) ch)
              (sym same)
            ∙ sealed;
        whole = sym (ok-inj e7) ∙ ap (λ b. b ++ (counter ++ tag)) (sym one);
      }

  -- The parts of a reply, as the other end cuts them out.
  Parts-valid :
      (cryptography : Cryptography)
      → IsGcm cryptography
      → (c meter : DlmsConnection Conformance) (challenge reply : List ℕ)
      → Mirrors c meter challenge
      → Parts cryptography meter challenge reply
      → gmac_is_valid cryptography challenge reply c ≡ ok true
  unfolding gmac_is_valid
  Parts-valid cryptography gcm c meter challenge reply m p =
      let head : ℕ = control_byte p.control in
      let (number, four) =
        unsigned-read 4 meter.client_invocation_counter p.counter p.counter_written in
      let twelve : length p.tag ≡ tag_length =
        length-gmac cryptography gcm _ _ _ _ _ _ p.tag p.sealed in
      let first : int_to_bytes 1 head ≡ ok (head ∷ []) =
        one_byte head (control_byte-IsByte p.control p.suite) in
      let cut : take 4 (p.counter ++ p.tag) ≡ p.counter =
        take_prefix p.counter p.tag 4 (sym four) in
      let tail : drop (length (head ∷ (p.counter ++ p.tag)) - tag_length)
            (head ∷ (p.counter ++ p.tag))
          ≡ p.tag =
        drop_prefix (head ∷ p.counter) p.tag _
          (omega (arith, length-append p.counter p.tag, twelve)) in
      rw p.whole (
        rw first (
          rw (control-from_bytes p.control p.suite) (
            rw (m.encryption_key ∙ p.key) (
              rw (m.authentication_key ∙ p.auth) (
                rw m.title_known (
                  rw cut (
                    rw number
                      (rw tail (rw (rw m.title at p.sealed) (ap ok (bytes_eq_refl p.tag)))))))))))

module _ {Body Conformance : Type 0} (codec : ApduCodec Body Conformance)
    (cryptography : Cryptography) (gcm : IsGcm cryptography) where
  -- The GMAC exchange succeeds between two ends of this code, for a cipher with the lengths of
  -- AES-GCM. The client waits for the meter's answer to its challenge; the meter's end generated the
  -- reply to that challenge with the same keys, under the system title that the client has of it,
  -- with any counter and suite; and the answer is an action response with data, its status a success
  -- and its data the reply. Then the client accepts the answer: it returns it, is ready, and has an
  -- empty buffer and nothing else changed.
  pub accept-gmac_reply :
      (c meter : DlmsConnection Conformance) (b : Body) (challenge own reply : List ℕ)
      → c.state ≡ awaiting_hls_client_challenge_result
      → c.authentication ≡ high_level_gmac challenge
      → Mirrors c meter challenge
      → hls_generate_reply_data cryptography (high_level_gmac own) meter ≡ ok reply
      → codec.body_type b ≡ action_response_normal_with_data
      → codec.action_succeeded b ≡ true
      → codec.action_data b ≡ ok reply
      → accept codec cryptography c (plain b)
        ≡ (record c { state = ready; buffer = [] }, ok (plain b))
  unfolding hls_generate_reply_data hls_meter_data_is_valid
  accept-gmac_reply c meter b challenge own reply s method m generated t succeeded read =
      let end : DlmsConnection Conformance = at_hls_done codec cryptography c in
      let mirrored : Mirrors end meter challenge = record {
        first = m.first;
        others = m.others;
        title = m.title;
        title_known = m.title_known;
        challenge_known = m.challenge_known;
        encryption_key = m.encryption_key;
        authentication_key = m.authentication_key;
      } in
      let parts = reply-Parts cryptography end meter challenge reply mirrored generated in
      let valid : gmac_is_valid cryptography challenge reply end ≡ ok true =
        Parts-valid cryptography gcm end meter challenge reply mirrored parts in
      accept-Verified codec cryptography c b s (record {
        of_class = t;
        succeeded = succeeded;
        input = reply;
        input_read = read;
        valid = ap (λ a. hls_meter_data_is_valid cryptography a reply end) method ∙ valid;
      })

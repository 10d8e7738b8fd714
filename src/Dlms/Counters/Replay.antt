-- ===== src/Dlms/Counters/Replay.antt =====
-- Ciphered APDUs that DlmsConnection.next_event (dlms_cosem/connection.py) meets again.
use dlms_cosem.Prelude.{
  ℕ, ◌≤◌, ◌<◌, ◌≡◌, refl, ap, ◌∙◌, arith, Bool, true, false, List, ok, raise, Exception,
  local_dlms_protocol_error,
}
use dlms_cosem.Security.Ciphers.{Cryptography}
use dlms_cosem.Dlms.Apdu.{Apdu, GeneralGlobalCipher, general_global_cipher, ApduCodec}
use dlms_cosem.Dlms.Connection.{
  DlmsConnection, use_protection, decrypt, unprotect, update_meter_invocation_counter,
}
use dlms_cosem.Dlms.Operations.{
  after, next_event, handle_parsed, handle_apdu, note_meter, unprotect_if, accept,
}
use dlms_cosem.Dlms.Calls.{Operation, perform_all, after_keeps}
use dlms_cosem.Dlms.Calls.Receiving.{accept_keeps}
use dlms_cosem.Dlms.Counters.{Grows-kept}
use dlms_cosem.Dlms.Counters.Freshness.{perform_all-Grows}

module _ {Conformance : Type 0} where
  stale :
      (c : DlmsConnection Conformance) (n : ℕ)
      → n ≤ c.meter_invocation_counter
      → update_meter_invocation_counter c n ≡ (c, raise local_dlms_protocol_error)
  unfolding update_meter_invocation_counter
  stale c n low = ground arith

  fresh :
      (c : DlmsConnection Conformance) (n : ℕ)
      → c.meter_invocation_counter < n
      → update_meter_invocation_counter c n ≡ (record c { meter_invocation_counter = n }, ok tt)
  unfolding update_meter_invocation_counter
  fresh c n high = ground arith

  noted :
      (c : DlmsConnection Conformance) (n : ℕ)
      → n ≤ (update_meter_invocation_counter c n).0.meter_invocation_counter
  unfolding update_meter_invocation_counter
  noted c n = ground arith

module _ {Body Conformance : Type 0} (codec : ApduCodec Body Conformance)
    (cryptography : Cryptography) where
  flag-noted :
      (flag : Bool) (c : DlmsConnection Conformance) (g : GeneralGlobalCipher)
      → flag ≡ true
      → g.invocation_counter
        ≤ (unprotect_if codec cryptography flag c
            (general_global_cipher g)).0.meter_invocation_counter
  unfolding unprotect_if unprotect
  flag-noted true c g u = noted c g.invocation_counter
  flag-noted false c g u = cc

  handled-noted :
      (c : DlmsConnection Conformance) (g : GeneralGlobalCipher)
      → use_protection c ≡ true
      → g.invocation_counter
        ≤ (handle_apdu codec cryptography c (general_global_cipher g)).0.meter_invocation_counter
  unfolding handle_apdu note_meter
  handled-noted c g u =
      let seen = flag-noted (use_protection c) c g u in
      let grown =
        after_keeps Grows-kept
          (unprotect_if codec cryptography (use_protection c) c (general_global_cipher g)).0
          (unprotect_if codec cryptography (use_protection c) c (general_global_cipher g))
          (accept codec cryptography) (Grows-kept.reflexive _)
          (accept_keeps Grows-kept codec cryptography) in
      let higher = grown.meter_grows in omega arith

  flag-stale :
      (flag : Bool) (c : DlmsConnection Conformance) (g : GeneralGlobalCipher)
      → flag ≡ true
      → g.invocation_counter ≤ c.meter_invocation_counter
      → after
          (unprotect_if codec cryptography flag c (general_global_cipher g))
          (accept codec cryptography)
        ≡ (c, raise local_dlms_protocol_error)
  unfolding after unprotect_if unprotect
  flag-stale true c g u low = rw (stale c g.invocation_counter low) refl
  flag-stale false c g u low = cc

  parsed :
      (c : DlmsConnection Conformance) (a : Apdu Body Conformance)
      → codec.apdu_from_bytes c.buffer ≡ ok a
      → next_event codec cryptography c ≡ handle_apdu codec cryptography c a
  unfolding next_event handle_parsed
  parsed c a e = rw e refl

  stale-refused :
      (c : DlmsConnection Conformance) (g : GeneralGlobalCipher)
      → codec.apdu_from_bytes c.buffer ≡ ok (general_global_cipher g)
      → use_protection c ≡ true
      → g.invocation_counter ≤ c.meter_invocation_counter
      → next_event codec cryptography c ≡ (c, raise local_dlms_protocol_error)
  unfolding handle_apdu note_meter
  stale-refused c g e u low = parsed c _ e ∙ flag-stale (use_protection c) c g u low

  -- The connection after `next_event` and the calls that follow it.
  abbrev pub since :
      DlmsConnection Conformance → List (Operation Body Conformance) → DlmsConnection Conformance
  since c between = perform_all codec cryptography (next_event codec cryptography c).0 between

  -- A ciphered APDU is handled at most once: once `next_event` has met one, whether it accepted it
  -- or raised, and after any calls of the connection, `next_event` refuses every ciphered APDU with
  -- that invocation counter or a lower one and leaves the connection as it was. The connection has
  -- a key at both calls.
  pub replay-refused :
      (c : DlmsConnection Conformance) (g h : GeneralGlobalCipher)
      (between : List (Operation Body Conformance))
      → codec.apdu_from_bytes c.buffer ≡ ok (general_global_cipher g)
      → use_protection c ≡ true
      → codec.apdu_from_bytes (since c between).buffer ≡ ok (general_global_cipher h)
      → use_protection (since c between) ≡ true
      → h.invocation_counter ≤ g.invocation_counter
      → next_event codec cryptography (since c between)
        ≡ (since c between, raise local_dlms_protocol_error)
  replay-refused c g h between e u f v low =
      let higher =
        (perform_all-Grows codec cryptography (next_event codec cryptography c).0
          between).meter_grows in
      let seen = handled-noted c g u in
      let same = ap (λ p. p.0.meter_invocation_counter) (parsed c _ e) in
      stale-refused (since c between) h f v (omega arith)

  flag-forged :
      (flag : Bool) (c : DlmsConnection Conformance) (g : GeneralGlobalCipher) (x : Exception)
      → flag ≡ true
      → c.meter_invocation_counter < g.invocation_counter
      → decrypt cryptography
          (record c { meter_invocation_counter = g.invocation_counter })
          g.ciphered_text
        ≡ raise x
      → after
          (unprotect_if codec cryptography flag c (general_global_cipher g))
          (accept codec cryptography)
        ≡ (record c { meter_invocation_counter = g.invocation_counter }, raise x)
  unfolding after unprotect_if unprotect
  flag-forged true c g x u high bad = rw (fresh c g.invocation_counter high, bad) refl
  flag-forged false c g x u high bad = cc

  -- A ciphered APDU that the tag refuses moves the meter's counter all the same, where its counter
  -- is higher, and stays in the buffer.
  pub forged-counter :
      (c : DlmsConnection Conformance) (g : GeneralGlobalCipher) (x : Exception)
      → codec.apdu_from_bytes c.buffer ≡ ok (general_global_cipher g)
      → use_protection c ≡ true
      → c.meter_invocation_counter < g.invocation_counter
      → decrypt cryptography
          (record c { meter_invocation_counter = g.invocation_counter })
          g.ciphered_text
        ≡ raise x
      → next_event codec cryptography c
        ≡ (record c { meter_invocation_counter = g.invocation_counter }, raise x)
  unfolding handle_apdu note_meter
  forged-counter c g x e u high bad = parsed c _ e ∙ flag-forged (use_protection c) c g x u high bad

-- ===== src/Dlms/Outstanding.antt =====
-- DlmsConnection.send (dlms_cosem/connection.py) while a response is outstanding.
use dlms_cosem.Prelude.{
  ℕ, ◌≡◌, inl, inr, refl, ap, ◌∙◌, arith, true, not, ◌&&◌, Bool-cases, Option, none, some, List, [],
  ◌∷◌, ◌++◌, ◌<◌, local_dlms_protocol_error, Result, ok, raise, Result-cases, Exception,
  pre_established_association_error,
}
use dlms_cosem.Association.State.{
  DlmsState, EventType, process_event, end_association, dlms_state_transitions,
}
use dlms_cosem.Association.Traces.{is_request, is_awaiting, request_refused, request_awaits}
use dlms_cosem.Security.Ciphers.{Cryptography}
use dlms_cosem.Dlms.Apdu.{
  Content, Apdu, aarq, aare, rlrq, rlre, general_global_cipher, plain, ApduCodec, type_of,
}
use dlms_cosem.Dlms.Connection.{
  DlmsConnection, use_protection, encrypt, encrypt_bytes, protect_content, protect,
}
use dlms_cosem.Dlms.Operations.{
  transition, after, write, protect_if, send_protected, send_accepted, end_without_release, send,
  receive_data, is_acse_request, is_release_request,
}
use dlms_cosem.Dlms.Calls.{Operation, sends, receives, next, perform, perform_all}

end_refused :
    (s : DlmsState)
    → is_awaiting s ≡ true
    → process_event s end_association ≡ raise local_dlms_protocol_error
unfolding process_event dlms_state_transitions is_awaiting
end_refused s w = ground arith

module _ {Body Conformance : Type 0} (codec : ApduCodec Body Conformance)
    (cryptography : Cryptography) where
  encrypt_bytes-state :
      (c : DlmsConnection Conformance) (bs : Result (List ℕ))
      → (encrypt_bytes codec cryptography c bs).0.state ≡ c.state
  unfolding encrypt_bytes encrypt
  encrypt_bytes-state c (raise e) = refl
  encrypt_bytes-state c (ok bs) = ground arith

  protect_content-state :
      (c : DlmsConnection Conformance) (u : Option (Content Body Conformance))
      → (protect_content codec cryptography c u).0.state ≡ c.state
  unfolding protect_content
  protect_content-state c none = refl
  protect_content-state c (some u) = encrypt_bytes-state c (codec.content_to_bytes u)

  protect-state :
      (c : DlmsConnection Conformance) (a : Apdu Body Conformance)
      → (protect codec cryptography c a).0.state ≡ c.state
  unfolding protect
  protect-state c (aarq r) = protect_content-state c r.user_information
  protect-state c (rlrq r) = protect_content-state c r.user_information
  protect-state c (general_global_cipher g) =
      encrypt_bytes-state c (codec.to_bytes (general_global_cipher g))
  protect-state c (plain b) = elim (Bool-cases (codec.is_xdlms b)) [
    | inl x ↦ rw x (encrypt_bytes-state c (codec.to_bytes (plain b)))
    | inr x ↦ rw x refl
  ]
  protect-state c (aare r) = refl
  protect-state c (rlre r) = refl

  after-write :
      (p : DlmsConnection Conformance × Result (Apdu Body Conformance))
      → (after p (write codec cryptography)).0 ≡ p.0
  unfolding after write
  after-write (d, raise e) = refl
  after-write (d, ok a) = refl

  -- The protection and the encoding leave the state, also where they raise.
  send_protected-state :
      (c : DlmsConnection Conformance) (a : Apdu Body Conformance)
      → (send_protected codec cryptography c a).0.state ≡ c.state
  unfolding send_protected protect_if
  send_protected-state c a = elim (Bool-cases (use_protection c)) [
    | inl x ↦
        rw x (ap (λ d. d.state) (after-write (protect codec cryptography c a)) ∙ protect-state c a)
    | inr x ↦ rw x (ap (λ d. d.state) (after-write (c, ok a)))
  ]

  transition-ok :
      (c : DlmsConnection Conformance) (t : EventType) (s : DlmsState)
      → process_event c.state t ≡ ok s
      → transition c t ≡ (record c { state = s }, ok tt)
  unfolding transition
  transition-ok c t s h = rw (h, transition) refl

  transition-refused :
      (c : DlmsConnection Conformance) (t : EventType) (x : Exception)
      → process_event c.state t ≡ raise x
      → transition c t ≡ (c, raise x)
  unfolding transition
  transition-refused c t x h = rw (h, transition) refl

  accepted-ok :
      (c : DlmsConnection Conformance) (a : Apdu Body Conformance) (s : DlmsState)
      → process_event c.state (type_of codec a) ≡ ok s
      → send_accepted codec cryptography c a
        ≡ send_protected codec cryptography (record c { state = s }) a
  unfolding send_accepted after
  accepted-ok c a s h = rw (transition-ok c (type_of codec a) s h) refl

  accepted-refused :
      (c : DlmsConnection Conformance) (a : Apdu Body Conformance) (x : Exception)
      → process_event c.state (type_of codec a) ≡ raise x
      → send_accepted codec cryptography c a ≡ (c, raise x)
  unfolding send_accepted after
  accepted-refused c a x h = rw (transition-refused c (type_of codec a) x h) refl

  end-refused :
      (c : DlmsConnection Conformance) (x : Exception)
      → process_event c.state end_association ≡ raise x
      → end_without_release codec cryptography c ≡ (c, raise x)
  unfolding end_without_release after
  end-refused c x h = rw (transition-refused c end_association x h) refl

  accepted-awaits :
      (c : DlmsConnection Conformance) (a : Apdu Body Conformance) (bytes : List ℕ)
      → is_request (type_of codec a) ≡ true
      → (send_accepted codec cryptography c a).1 ≡ ok bytes
      → is_awaiting (send_accepted codec cryptography c a).0.state ≡ true
  accepted-awaits c a bytes q e = elim (Result-cases (process_event c.state (type_of codec a))) [
    | inl (s, h) ↦
        ap (λ p. is_awaiting p.0.state) (accepted-ok c a s h)
        ∙ ap is_awaiting (send_protected-state (record c { state = s }) a)
        ∙ request_awaits c.state s (type_of codec a) q h
    | inr (x, h) ↦ cc (ap (λ p. p.1) (accepted-refused c a x h))
  ]

  no_bytes :
      (c : DlmsConnection Conformance) (bytes : List ℕ)
      → (end_without_release codec cryptography c).1 ≡ ok bytes
      → 1 < 0
  unfolding end_without_release after transition
  no_bytes c bytes e = ground arith

  -- A request that `send` returned the bytes of is outstanding.
  send-awaits :
      (c : DlmsConnection Conformance) (a : Apdu Body Conformance) (bytes : List ℕ)
      → is_request (type_of codec a) ≡ true
      → (send codec cryptography c a).1 ≡ ok bytes
      → is_awaiting (send codec cryptography c a).0.state ≡ true
  unfolding send
  send-awaits c a bytes q e = elim (Bool-cases (c.is_pre_established && is_acse_request a)) [
    | inl p ↦ cc (rw p at e)
    | inr p ↦ elim (Bool-cases (not c.settings.use_rlrq_rlre && is_release_request a)) [
      | inl r ↦ absurd (omega (arith, no_bytes c bytes (rw r at (rw p at e))))
      | inr r ↦ rw p (rw r (accepted-awaits c a bytes q (rw r at (rw p at e))))
    ]
  ]

  send-refused :
      (c : DlmsConnection Conformance) (b : Apdu Body Conformance)
      → is_awaiting c.state ≡ true
      → is_request (type_of codec b) ≡ true
      → (x : Exception) × (send codec cryptography c b ≡ (c, raise x))
  unfolding send
  send-refused c b w q = elim (Bool-cases (c.is_pre_established && is_acse_request b)) [
    | inl p ↦ (pre_established_association_error, rw p refl)
    | inr p ↦ (
      local_dlms_protocol_error,
      rw p (elim (Bool-cases (not c.settings.use_rlrq_rlre && is_release_request b)) [
        | inl r ↦ rw r (end-refused c _ (end_refused c.state w))
        | inr r ↦ rw r (accepted-refused c b _ (request_refused c.state (type_of codec b) w q))
      ]),
    )
  ]

  -- A call that takes no APDU out of the buffer, and sends nothing but requests.
  abbrev pub IsAsking : Operation Body Conformance → Type 0
  IsAsking (sends a) = is_request (type_of codec a) ≡ true
  IsAsking (receives bytes) = Unit {0}
  IsAsking next = 1 < 0

  abbrev pub AllAsking : List (Operation Body Conformance) → Type 0
  AllAsking [] = Unit {0}
  AllAsking (o ∷ os) = IsAsking o × AllAsking os

  still_awaiting :
      (c : DlmsConnection Conformance) (os : List (Operation Body Conformance))
      → is_awaiting c.state ≡ true
      → AllAsking os
      → is_awaiting (perform_all codec cryptography c os).state ≡ true
  unfolding perform_all perform receive_data
  still_awaiting c [] w h = w
  still_awaiting c (sends a ∷ os) w (h, hs) =
      let (x, e) = send-refused c a w h in
      ap (λ p. is_awaiting (perform_all codec cryptography p.0 os).state) e
      ∙ still_awaiting c os w hs
  still_awaiting c (receives bytes ∷ os) w (h, hs) =
      still_awaiting (record c { buffer = c.buffer ++ bytes }) os w hs
  still_awaiting c (next ∷ os) w (h, hs) = absurd (omega (arith, h))

  -- Once `send` has returned the bytes of a request, and as long as the calls that follow only
  -- receive bytes and try to send requests, `send` of another request raises, and leaves the
  -- connection as it is, its state, buffer and counters included.
  pub send-outstanding :
      (c : DlmsConnection Conformance) (a b : Apdu Body Conformance)
      (os : List (Operation Body Conformance)) (bytes : List ℕ)
      → is_request (type_of codec a) ≡ true
      → (send codec cryptography c a).1 ≡ ok bytes
      → AllAsking os
      → is_request (type_of codec b) ≡ true
      → (let d = perform_all codec cryptography (send codec cryptography c a).0 os in
          (x : Exception) × (send codec cryptography d b ≡ (d, raise x)))
  send-outstanding c a b os bytes qa e h qb =
      let sent = (send codec cryptography c a).0 in
      send-refused (perform_all codec cryptography sent os) b
        (still_awaiting sent os (send-awaits c a bytes qa e) h) qb

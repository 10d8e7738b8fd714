-- ===== src/Dlms/Counters/Nonces.antt =====
-- The invocation counters in what DlmsConnection.send (dlms_cosem/connection.py) returns.
use dlms_cosem.Prelude.{
  ℕ, ◌<◌, ◌≡◌, ◌⊎◌, inl, inr, refl, sym, ap, ◌∙◌, arith, Bool, true, false, Option, none, some,
  List, Result, ok, raise, pre_established_association_error, if◌then◌else◌,
}
use dlms_cosem.Association.State.{EventType}
use dlms_cosem.Security.Ciphers.{Cryptography}
use dlms_cosem.Dlms.Apdu.{Apdu, ApduCodec, type_of}
use dlms_cosem.Dlms.Connection.{DlmsConnection, use_protection, protect}
use dlms_cosem.Dlms.Operations.{
  transition, after, write, protect_if, send_protected, send_accepted, end_without_release, send,
}
use dlms_cosem.Dlms.Counters.{counter_of, Grows}
use dlms_cosem.Dlms.Counters.Freshness.{protect-Numbered, perform_all-Grows}
use dlms_cosem.Dlms.Calls.{Operation, perform_all}

after-eq-ok :
    {S A B : Type 0} (p : S × Result A) (next : S → A → S × Result B) {result : B}
    → (after p next).1 ≡ ok result
    → (a : A) × (p.1 ≡ ok a) × (after p next ≡ next p.0 a)
unfolding after
after-eq-ok (s, raise e) next returned = ground arith
after-eq-ok (s, ok a) next returned = (a, refl, refl)

option-cases : (o : Option ℕ) → (o ≡ none) ⊎ ((n : ℕ) × (o ≡ some n))
option-cases none = inl refl
option-cases (some n) = inr (n, refl)

module _ {Conformance : Type 0} where
  transition-keeps :
      (c : DlmsConnection Conformance) (t : EventType)
      → (use_protection (transition c t).0 ≡ use_protection c)
        × ((transition c t).0.client_invocation_counter ≡ c.client_invocation_counter)
  unfolding transition use_protection
  transition-keeps c t = ground arith

module _ {Body Conformance : Type 0} (codec : ApduCodec Body Conformance)
    (cryptography : Cryptography) where
  -- What `send` wrote: the encoding of an APDU with no counter, or with the connection's.
  pub record Written (c d : DlmsConnection Conformance) (bytes : List ℕ) : Type 0 where
    pub apdu : Apdu Body Conformance
    pub encoded : codec.to_bytes apdu ≡ ok bytes
    pub numbered :
        (counter_of apdu ≡ none)
        ⊎ ((counter_of apdu ≡ some c.client_invocation_counter)
            × (c.client_invocation_counter < d.client_invocation_counter))

  write-encoded :
      (c : DlmsConnection Conformance) (b : Apdu Body Conformance) (bytes : List ℕ)
      → (write codec cryptography c b).1 ≡ ok bytes
      → codec.to_bytes b ≡ ok bytes
  unfolding write
  write-encoded c b bytes e = ground arith

  protected-Written :
      (c : DlmsConnection Conformance) (a : Apdu Body Conformance) (bytes : List ℕ)
      → (after (protect codec cryptography c a) (write codec cryptography)).1 ≡ ok bytes
      → Written c (after (protect codec cryptography c a) (write codec cryptography)).0 bytes
  unfolding write
  protected-Written c a bytes e =
      let (b, e1, same) =
        after-eq-ok (protect codec cryptography c a) (write codec cryptography) e in
      let left : (after (protect codec cryptography c a)
            (write codec cryptography)).0.client_invocation_counter
          ≡ (protect codec cryptography c a).0.client_invocation_counter =
        ap (λ p. p.0.client_invocation_counter) same in
      record {
        apdu = b;
        encoded =
            write-encoded (protect codec cryptography c a).0 b bytes (sym (ap (λ p. p.1) same) ∙ e);
        numbered = elim (option-cases (counter_of b)) [
          | inl absent ↦ inl absent
          | inr (n, present) ↦
              let numbered = protect-Numbered codec cryptography c a b n e1 present in
              inr (numbered.number, (let moved = numbered.moved in omega arith))
        ];
      }

  Written-same :
      (c c' d d' : DlmsConnection Conformance) (bytes : List ℕ)
      → c.client_invocation_counter ≡ c'.client_invocation_counter
      → d.client_invocation_counter ≡ d'.client_invocation_counter
      → Written c d bytes
      → Written c' d' bytes
  Written-same c c' d d' bytes e f written = record {
    apdu = written.apdu;
    encoded = written.encoded;
    numbered = elim written.numbered [
      | inl absent ↦ inl absent
      | inr (number, grown) ↦ inr (number ∙ ap some e, omega arith)
    ];
  }

  flag-Written :
      (flag : Bool) (c : DlmsConnection Conformance) (a : Apdu Body Conformance) (bytes : List ℕ)
      → flag ≡ true
      → (after (protect_if codec cryptography flag c a) (write codec cryptography)).1 ≡ ok bytes
      → Written c
          (after (protect_if codec cryptography flag c a) (write codec cryptography)).0
          bytes
  unfolding protect_if
  flag-Written true c a bytes u e = protected-Written c a bytes e
  flag-Written false c a bytes u e = cc

  accepted-Written :
      (c : DlmsConnection Conformance) (a : Apdu Body Conformance) (bytes : List ℕ)
      → use_protection c ≡ true
      → (send_accepted codec cryptography c a).1 ≡ ok bytes
      → Written c (send_accepted codec cryptography c a).0 bytes
  unfolding send_accepted send_protected
  accepted-Written c a bytes u e =
      let d = (transition c (type_of codec a)).0 in
      let (x, e1, same) =
        after-eq-ok (transition c (type_of codec a))
          (λ c1 _. send_protected codec cryptography c1 a) e in
      let (kept, counter) = transition-keeps c (type_of codec a) in
      Written-same d c _ _ bytes counter (sym (ap (λ p. p.0.client_invocation_counter) same))
        (flag-Written (use_protection d) d a bytes (kept ∙ u) (sym (ap (λ p. p.1) same) ∙ e))

  ended-raises :
      (c : DlmsConnection Conformance) (bytes : List ℕ)
      → ¬ ((end_without_release codec cryptography c).1 ≡ ok bytes)
  unfolding end_without_release after transition
  ended-raises c bytes e = ground arith

  guards-Written :
      (f g : Bool) (c : DlmsConnection Conformance) (a : Apdu Body Conformance) (bytes : List ℕ)
      → use_protection c ≡ true
      → (if f
          then (c, raise pre_established_association_error)
          else if g
          then end_without_release codec cryptography c
          else send_accepted codec cryptography c a).1
        ≡ ok bytes
      → Written c
          (if f
            then (c, raise pre_established_association_error)
            else if g
            then end_without_release codec cryptography c
            else send_accepted codec cryptography c a).0
          bytes
  guards-Written true g c a bytes u e = cc
  guards-Written false true c a bytes u e = absurd (ended-raises c bytes e)
  guards-Written false false c a bytes u e = accepted-Written c a bytes u e

  -- Where the connection has a key and `send` returns bytes, these encode an APDU that either
  -- carries no invocation counter, or carries the connection's client counter, which is higher
  -- afterwards.
  pub send-Written :
      (c : DlmsConnection Conformance) (a : Apdu Body Conformance) (bytes : List ℕ)
      → use_protection c ≡ true
      → (send codec cryptography c a).1 ≡ ok bytes
      → Written c (send codec cryptography c a).0 bytes
  unfolding send
  send-Written c a bytes u e = guards-Written _ _ c a bytes u e

  -- The counters that two written APDUs carry, if both do: the second one is higher.
  pub Rising :
      {c d c' d' : DlmsConnection Conformance} {first second : List ℕ}
      → Written c d first
      → Written c' d' second
      → Type 0
  Rising first second =
      (counter_of first.apdu ≡ none)
      ⊎ (counter_of second.apdu ≡ none)
      ⊎ ((m : ℕ) × (n : ℕ) × (counter_of first.apdu ≡ some m)
          × (counter_of second.apdu ≡ some n)
          × (m < n))

  Written-Rising :
      {c d c' d' : DlmsConnection Conformance} {first second : List ℕ} (before : Written c d first)
      (later : Written c' d' second)
      → Grows d c'
      → Rising before later
  unfolding Rising
  Written-Rising {c} {d} {c'} {d'} before later g = elim before.numbered [
    | inl absent ↦ inl absent
    | inr (number, lower) ↦ elim later.numbered [
      | inl absent ↦ inr (inl absent)
      | inr (number', _) ↦ inr (
          inr (
            c.client_invocation_counter,
            c'.client_invocation_counter,
            number,
            number',
            (let h = g.client_grows in omega arith),
          ))
    ]
  ]

  -- Of two calls of `send` that return, with any calls of `send`, `receive_data` and `next_event`
  -- between them, raising or not, the second one writes a higher invocation counter than the first
  -- one, unless one of them writes none, where the connection has a key at both calls.
  pub send-Rising :
      (c : DlmsConnection Conformance) (a b : Apdu Body Conformance)
      (between : List (Operation Body Conformance)) (first second : List ℕ)
      (u : use_protection c ≡ true) (e : (send codec cryptography c a).1 ≡ ok first)
      (v : use_protection (perform_all codec cryptography (send codec cryptography c a).0 between)
        ≡ true)
      (f : (send codec cryptography
          (perform_all codec cryptography (send codec cryptography c a).0 between)
          b).1
        ≡ ok second)
      → Rising (send-Written c a first u e) (send-Written _ b second v f)
  send-Rising c a b between first second u e v f =
      Written-Rising _ _
        (perform_all-Grows codec cryptography (send codec cryptography c a).0 between)

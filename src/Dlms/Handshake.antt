-- ===== src/Dlms/Handshake.antt =====
-- The association in DlmsConnection.next_event (dlms_cosem/connection.py): what follows an AARE,
-- and the end of the HLS exchange.
use dlms_cosem.Prelude.{
  ℕ, ◌≡◌, inl, inr, refl, arith, true, false, Bool-cases, Result-cases, Option, none, some, List,
  [], ok, leb, if◌then◌else◌,
}
use dlms_cosem.Association.State.{
  EventType, DlmsState, process_event, dlms_state_transitions, no_association, ready,
  should_send_hls_sever_challenge_result, awaiting_association_response,
  awaiting_hls_client_challenge_result, hls_done, action_response_normal_with_data,
}
use dlms_cosem.Security.Ciphers.{Cryptography}
use dlms_cosem.Dlms.Apdu.{
  Apdu, AssociationResponse, AssociationResult, accepted, rejected_permanent, rejected_transient,
  aare, plain, ApduCodec, type_of,
}
use dlms_cosem.Dlms.Connection.{DlmsConnection}
use dlms_cosem.Dlms.Authentication.{hls_meter_data_is_valid}
use dlms_cosem.Dlms.Operations.{
  transition, after, accept, settle, after_association, associated, update_negotiated_parameters,
  handle_hls, verify_apdu, verify_class, verify_meter,
}

module _ {Body Conformance : Type 0} (codec : ApduCodec Body Conformance)
    (cryptography : Cryptography) where
  -- The state that an AARE leads to, by its result and its authentication mechanism.
  unfoldable pub outcome : AssociationResult → Option ℕ → DlmsState
  outcome accepted none = ready
  outcome accepted (some mechanism) =
      if leb 2 mechanism then should_send_hls_sever_challenge_result else ready
  outcome rejected_permanent authentication = no_association
  outcome rejected_transient authentication = no_association

  -- Where the connection waits for an AARE and is not pre-established, `next_event` returns an AARE
  -- that it has taken the protection from, and ends in the state for its result and mechanism: no
  -- association on a rejection, the HLS exchange on acceptance with mechanism 2 or above, and
  -- readiness otherwise. The buffer is empty.
  pub accept-association :
      (c : DlmsConnection Conformance) (r : AssociationResponse Body Conformance)
      → c.state ≡ awaiting_association_response
      → c.is_pre_established ≡ false
      → ((accept codec cryptography c (aare r)).1 ≡ ok (aare r))
        × ((accept codec cryptography c (aare r)).0.state ≡ outcome r.result r.authentication)
        × ((accept codec cryptography c (aare r)).0.buffer ≡ [])
  unfolding accept transition after settle after_association associated update_negotiated_parameters
      handle_hls type_of process_event dlms_state_transitions outcome
  accept-association c r s p = ground arith

  -- A response that the meter's challenge result verifies.
  pub record Verified (c : DlmsConnection Conformance) (b : Body) : Type 0 where
    pub of_class : codec.body_type b ≡ action_response_normal_with_data
    pub succeeded : codec.action_succeeded b ≡ true
    pub input : List ℕ
    pub input_read : codec.action_data b ≡ ok input
    pub valid : hls_meter_data_is_valid cryptography c.authentication input c ≡ ok true

  meter-Verified :
      (c : DlmsConnection Conformance) (b : Body)
      → c.state ≡ hls_done
      → codec.body_type b ≡ action_response_normal_with_data
      → (verify_meter codec cryptography c b).0.state ≡ ready
      → Verified c b
  unfolding verify_meter transition after process_event dlms_state_transitions
  meter-Verified c b s t e = elim (Bool-cases (codec.action_succeeded b)) [
    | inl good ↦ elim (Result-cases (codec.action_data b)) [
      | inl (input, read) ↦
          elim (Result-cases (hls_meter_data_is_valid cryptography c.authentication input c)) [
            | inl (true, valid) ↦ record {
              of_class = t;
              succeeded = good;
              input = input;
              input_read = read;
              valid = valid;
            }
            | inl (false, valid) ↦ ground arith
            | inr (x, bad) ↦ ground arith
          ]
      | inr (x, bad) ↦ ground arith
    ]
    | inr bad ↦ ground arith
  ]

  class-Verified :
      (t : EventType) (c : DlmsConnection Conformance) (b : Body)
      → c.state ≡ hls_done
      → codec.body_type b ≡ t
      → (verify_class codec cryptography t c b).0.state ≡ ready
      → Verified c b
  unfolding verify_class transition process_event dlms_state_transitions
  class-Verified t c b s same e =
      elim t
          as (λ k.
            codec.body_type b ≡ k
            → (verify_class codec cryptography k c b).0.state ≡ ready
            → Verified c b) [
              | action_response_normal_with_data ↦ meter-Verified c b s
              | _ ↦ λ same e. ground arith
            ]
        same e

  -- The connection when the meter's result is checked.
  abbrev pub at_hls_done : DlmsConnection Conformance → DlmsConnection Conformance
  at_hls_done c = record c { state = hls_done; buffer = [] }

  typed-Verified :
      (t : EventType) (c : DlmsConnection Conformance) (b : Body)
      → c.state ≡ awaiting_hls_client_challenge_result
      → codec.body_type b ≡ t
      → (after
          (transition c t)
          (λ c1 _. settle codec cryptography (record c1 { buffer = [] }) (plain b))).0.state
        ≡ ready
      → Verified (at_hls_done c) b
  unfolding transition after settle after_association handle_hls verify_apdu process_event
      dlms_state_transitions
  typed-Verified t c b s same e = ground arith

  -- Where the connection waits for the meter's answer to the HLS challenge, an APDU that leaves it
  -- ready is an action response with data, its status a success and its data valid for the
  -- authentication method.
  pub accept-challenge_result :
      (c : DlmsConnection Conformance) (a : Apdu Body Conformance)
      → c.state ≡ awaiting_hls_client_challenge_result
      → (accept codec cryptography c a).0.state ≡ ready
      → (b : Body) × (a ≡ plain b) × Verified (at_hls_done c) b
  unfolding accept type_of after transition process_event dlms_state_transitions
  accept-challenge_result c (plain b) s e =
      (b, refl, typed-Verified (codec.body_type b) c b s refl (ground arith))
  accept-challenge_result c a s e = ground arith

  -- A response that is verified leaves the connection ready, where it waits for it.
  pub accept-Verified :
      (c : DlmsConnection Conformance) (b : Body)
      → c.state ≡ awaiting_hls_client_challenge_result
      → Verified (at_hls_done c) b
      → accept codec cryptography c (plain b)
        ≡ (record c { state = ready; buffer = [] }, ok (plain b))
  unfolding accept transition after settle after_association associated update_negotiated_parameters
      handle_hls type_of process_event dlms_state_transitions verify_apdu verify_class verify_meter
  accept-Verified c b s v = ground arith

-- ===== src/Dlms/Operations.antt =====
-- The operations of DlmsConnection (dlms_cosem/connection.py): `send`, `receive_data`,
-- `next_event`.
use dlms_cosem.Prelude.{
  ℕ, Bool, true, false, not, ◌&&◌, Option, none, some, List, [], ◌++◌, leb, ltb, length,
  if◌then◌else◌, Result, ok, raise, ◌>>=◌, local_dlms_protocol_error,
  pre_established_association_error, no_rlrq_rlre_error,
}
use dlms_cosem.Association.State.{
  DlmsState, EventType, process_event, hls_done, reject_association, hls_start, hls_failed,
  hls_success, end_association, action_response_normal_with_data, action_response_normal,
  action_response_normal_with_error,
}
use dlms_cosem.Security.Ciphers.{Cryptography}
use dlms_cosem.Dlms.Apdu.{
  Content, initiate_response, AssociationResult, accepted, rejected_permanent, rejected_transient,
  Apdu, aarq, aare, rlrq, rlre, plain, ApduCodec, type_of,
}
use dlms_cosem.Dlms.Connection.{DlmsConnection, use_protection, protect, unprotect}
use dlms_cosem.Dlms.Authentication.{hls_meter_data_is_valid}

module _ {Body Conformance : Type 0} where
  -- `isinstance(event, (ReleaseRequest, ApplicationAssociationRequest))`
  abbrev pub is_acse_request : Apdu Body Conformance → Bool
  is_acse_request (aarq r) = true
  is_acse_request (rlrq r) = true
  is_acse_request _ = false

  abbrev pub is_release_request : Apdu Body Conformance → Bool
  is_release_request (rlrq r) = true
  is_release_request _ = false

  -- `isinstance(apdu, (ApplicationAssociationResponse, ReleaseResponse))`
  abbrev pub is_acse_response : Apdu Body Conformance → Bool
  is_acse_response (aare r) = true
  is_acse_response (rlre r) = true
  is_acse_response _ = false

module _ {Conformance : Type 0} where
  -- `self.state.process_event(...)`
  unfoldable pub transition :
      DlmsConnection Conformance → EventType → DlmsConnection Conformance × Result (Unit {0})
  transition c event_type = elim (process_event c.state event_type) [
    | ok s ↦ (record c { state = s }, ok tt)
    | raise e ↦ (c, raise e)
  ]

  unfoldable pub receive_data : DlmsConnection Conformance → List ℕ → DlmsConnection Conformance
  receive_data c input = record c { buffer = c.buffer ++ input }

-- The next call of a method, where the one before it returned.
unfoldable pub after : {S A B : Type 0} → S × Result A → (S → A → S × Result B) → S × Result B
after (s, raise e) next = (s, raise e)
after (s, ok a) next = next s a

module _ {Body Conformance : Type 0} (codec : ApduCodec Body Conformance)
    (cryptography : Cryptography) where
  -- The encoding, and the check of its size.
  unfoldable pub write :
      DlmsConnection Conformance
      → Apdu Body Conformance
      → DlmsConnection Conformance × Result (List ℕ)
  write c event = (
    c,
    codec.to_bytes event >>= λ out.
        if ltb c.max_pdu_size (length out) then raise local_dlms_protocol_error else ok out,
  )

  unfoldable pub protect_if :
      Bool
      → DlmsConnection Conformance
      → Apdu Body Conformance
      → DlmsConnection Conformance × Result (Apdu Body Conformance)
  protect_if true c event = protect codec cryptography c event
  protect_if false c event = (c, ok event)

  unfoldable pub send_protected :
      DlmsConnection Conformance
      → Apdu Body Conformance
      → DlmsConnection Conformance × Result (List ℕ)
  unfolding write protect_if
  send_protected c event = after (protect_if (use_protection c) c event) write

  unfoldable pub send_accepted :
      DlmsConnection Conformance
      → Apdu Body Conformance
      → DlmsConnection Conformance × Result (List ℕ)
  unfolding transition send_protected
  send_accepted c event = after (transition c (type_of codec event)) λ c1 _. send_protected c1 event

  unfoldable pub end_without_release :
      DlmsConnection Conformance → DlmsConnection Conformance × Result (List ℕ)
  unfolding transition
  end_without_release c =
      after (transition c end_association) λ c1 _. (c1, raise no_rlrq_rlre_error)

  unfoldable pub send :
      DlmsConnection Conformance
      → Apdu Body Conformance
      → DlmsConnection Conformance × Result (List ℕ)
  unfolding send_accepted end_without_release
  send c event =
      if c.is_pre_established && is_acse_request event
      then (c, raise pre_established_association_error)
      else if not c.settings.use_rlrq_rlre && is_release_request event
      then end_without_release c
      else send_accepted c event

  -- `update_meter_info` for an AARE.
  unfoldable pub note_meter :
      DlmsConnection Conformance → Apdu Body Conformance → DlmsConnection Conformance
  note_meter c (aare r) = record c {
    meter_system_title = r.system_title;
    authentication_method = r.authentication;
    meter_to_client_challenge = r.authentication_value;
  }
  note_meter c _ = c

  unfoldable pub unprotect_if :
      Bool
      → DlmsConnection Conformance
      → Apdu Body Conformance
      → DlmsConnection Conformance × Result (Apdu Body Conformance)
  unprotect_if true c apdu = unprotect codec cryptography c apdu
  unprotect_if false c apdu = (c, ok apdu)

  unfoldable pub update_negotiated_parameters :
      DlmsConnection Conformance → Option (Content Body Conformance) → DlmsConnection Conformance
  update_negotiated_parameters c (some (initiate_response r)) = record c {
    conformance = r.negotiated_conformance;
    max_pdu_size = r.server_max_receive_pdu_size;
  }
  update_negotiated_parameters c _ = c

  -- `apdu.authentication >= HLS`, where there is an authentication.
  abbrev pub wants_hls : Option ℕ → Bool
  wants_hls none = false
  wants_hls (some mechanism) = leb 2 mechanism

  -- What follows an AARE that the state accepts; the flag says that `next_event` returns at once.
  unfoldable pub associated :
      DlmsConnection Conformance
      → AssociationResult
      → Option ℕ
      → DlmsConnection Conformance × Result Bool
  unfolding transition
  associated c accepted authentication =
      if wants_hls authentication
      then after (transition c hls_start) (λ c1 _. (c1, ok false))
      else (c, ok false)
  associated c rejected_permanent authentication =
      after (transition c reject_association) λ c1 _. (c1, ok true)
  associated c rejected_transient authentication =
      after (transition c reject_association) λ c1 _. (c1, ok true)

  unfoldable pub after_association :
      DlmsConnection Conformance → Apdu Body Conformance → DlmsConnection Conformance × Result Bool
  unfolding associated update_negotiated_parameters
  after_association c (aare r) =
      associated (update_negotiated_parameters c r.user_information) r.result r.authentication
  after_association c _ = (c, ok false)

  -- The status of the action does not end the verification: both events may be processed.
  unfoldable pub verify_meter :
      DlmsConnection Conformance → Body → DlmsConnection Conformance × Result (Unit {0})
  unfolding transition
  verify_meter c body =
      let failed = if codec.action_succeeded body then (c, ok tt) else transition c hls_failed in
      after failed λ c1 _.
        after
          (
            c1,
            codec.action_data body >>= λ input.
                hls_meter_data_is_valid cryptography c1.authentication input c1,
          )
          λ c2 valid. transition c2 (if valid then hls_success else hls_failed)

  -- The APDU received in HLS_DONE, by its class.
  unfoldable pub verify_class :
      EventType → DlmsConnection Conformance → Body → DlmsConnection Conformance × Result (Unit {0})
  unfolding verify_meter transition
  verify_class action_response_normal_with_data c body = verify_meter c body
  verify_class action_response_normal_with_error c body = transition c hls_failed
  verify_class action_response_normal c body = transition c hls_failed
  verify_class _ c body = (c, raise local_dlms_protocol_error)

  unfoldable pub verify_apdu :
      DlmsConnection Conformance
      → Apdu Body Conformance
      → DlmsConnection Conformance × Result (Unit {0})
  unfolding verify_class
  verify_apdu c (plain body) = verify_class (codec.body_type body) c body
  verify_apdu c _ = (c, raise local_dlms_protocol_error)

  abbrev pub is_hls_done : DlmsState → Bool
  is_hls_done hls_done = true
  is_hls_done _ = false

  unfoldable pub handle_hls :
      DlmsConnection Conformance
      → Apdu Body Conformance
      → DlmsConnection Conformance × Result (Unit {0})
  unfolding verify_apdu
  handle_hls c apdu = if is_hls_done c.state then verify_apdu c apdu else (c, ok tt)

  -- The end of `next_event`, once the state has taken the APDU.
  unfoldable pub settle :
      DlmsConnection Conformance
      → Apdu Body Conformance
      → DlmsConnection Conformance × Result (Apdu Body Conformance)
  unfolding after_association handle_hls
  settle c apdu = after (after_association c apdu) λ c1 finished.
      if finished then (c1, ok apdu) else after (handle_hls c1 apdu) (λ c2 _. (c2, ok apdu))

  -- `next_event` on the APDU without its protection.
  unfoldable pub accept :
      DlmsConnection Conformance
      → Apdu Body Conformance
      → DlmsConnection Conformance × Result (Apdu Body Conformance)
  unfolding settle transition
  accept c apdu =
      if c.is_pre_established && is_acse_response apdu
      then (c, raise pre_established_association_error)
      else after (transition c (type_of codec apdu))
          (λ c1 _. settle (record c1 { buffer = [] }) apdu)

  unfoldable pub handle_apdu :
      DlmsConnection Conformance
      → Apdu Body Conformance
      → DlmsConnection Conformance × Result (Apdu Body Conformance)
  unfolding note_meter unprotect_if accept
  handle_apdu c apdu =
      let noted = note_meter c apdu in after (unprotect_if (use_protection noted) noted apdu) accept

  unfoldable pub handle_parsed :
      DlmsConnection Conformance
      → Result (Apdu Body Conformance)
      → DlmsConnection Conformance × Result (Apdu Body Conformance)
  unfolding handle_apdu
  handle_parsed c (raise e) = (c, raise e)
  handle_parsed c (ok apdu) = handle_apdu c apdu

  unfoldable pub next_event :
      DlmsConnection Conformance → DlmsConnection Conformance × Result (Apdu Body Conformance)
  unfolding handle_parsed
  next_event c = handle_parsed c (codec.apdu_from_bytes c.buffer)

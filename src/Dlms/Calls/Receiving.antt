-- ===== src/Dlms/Calls/Receiving.antt =====
-- DlmsConnection.next_event (dlms_cosem/connection.py), and any calls in order: what the single
-- changes keep, they keep.
use dlms_cosem.Prelude.{
  List, [], ◌∷◌, ◌++◌, ℕ, inl, inr, Bool, true, false, ◌&&◌, Bool-cases, Option, none, some, Result,
  ok, raise, if◌then◌else◌,
}
use dlms_cosem.Association.State.{
  EventType, hls_start, hls_failed, reject_association, action_response_normal_with_data,
  action_response_normal, action_response_normal_with_error,
}
use dlms_cosem.Security.Ciphers.{Cryptography}
use dlms_cosem.Dlms.Apdu.{
  Content, initiate_request, global_cipher_initiate_request, initiate_response, AssociationResult,
  accepted, rejected_permanent, rejected_transient, global_cipher_initiate_response, Apdu, aarq,
  aare, rlrq, rlre, general_global_cipher, plain, ApduCodec, type_of,
}
use dlms_cosem.Dlms.Connection.{DlmsConnection, unprotect, unprotect_content}
use dlms_cosem.Dlms.Operations.{
  transition, after, associated, verify_class, verify_apdu, handle_parsed, wants_hls, is_hls_done,
  is_acse_response, note_meter, unprotect_if, update_negotiated_parameters, after_association,
  verify_meter, handle_hls, settle, accept, handle_apdu, next_event, receive_data,
}
use dlms_cosem.Dlms.Calls.{
  IsKept, after_keeps, Operation, sends, receives, next, perform, perform_all,
}
use dlms_cosem.Dlms.Calls.Sending.{send_keeps}

module _ {Body Conformance : Type 0}
    {R : DlmsConnection Conformance → DlmsConnection Conformance → Type 0} (kept : IsKept R)
    (codec : ApduCodec Body Conformance) (cryptography : Cryptography) where
  unprotect_content_keeps :
      (c : DlmsConnection Conformance) (u : Option (Content Body Conformance))
      → R c (unprotect_content codec cryptography c u).0
  unfolding unprotect_content
  unprotect_content_keeps c none = kept.reflexive c
  unprotect_content_keeps c (some (global_cipher_initiate_response g)) =
      kept.after_counter c g.invocation_counter
  unprotect_content_keeps c (some (initiate_request b)) = kept.reflexive c
  unprotect_content_keeps c (some (global_cipher_initiate_request g)) = kept.reflexive c
  unprotect_content_keeps c (some (initiate_response r)) = kept.reflexive c

  unprotect_keeps :
      (c : DlmsConnection Conformance) (a : Apdu Body Conformance)
      → R c (unprotect codec cryptography c a).0
  unfolding unprotect
  unprotect_keeps c (aare r) = unprotect_content_keeps c r.user_information
  unprotect_keeps c (rlre r) = unprotect_content_keeps c r.user_information
  unprotect_keeps c (general_global_cipher g) = kept.after_counter c g.invocation_counter
  unprotect_keeps c (aarq r) = kept.reflexive c
  unprotect_keeps c (rlrq r) = kept.reflexive c
  unprotect_keeps c (plain b) = kept.reflexive c

  unprotect_if_keeps :
      (b : Bool) (c : DlmsConnection Conformance) (a : Apdu Body Conformance)
      → R c (unprotect_if codec cryptography b c a).0
  unfolding unprotect_if
  unprotect_if_keeps true c a = unprotect_keeps c a
  unprotect_if_keeps false c a = kept.reflexive c

  negotiated_keeps :
      (c : DlmsConnection Conformance) (u : Option (Content Body Conformance))
      → R c (update_negotiated_parameters codec cryptography c u)
  unfolding update_negotiated_parameters
  negotiated_keeps c none = kept.reflexive c
  negotiated_keeps c (some (global_cipher_initiate_response g)) = kept.reflexive c
  negotiated_keeps c (some (initiate_request b)) = kept.reflexive c
  negotiated_keeps c (some (global_cipher_initiate_request g)) = kept.reflexive c
  negotiated_keeps c (some (initiate_response r)) =
      kept.after_negotiation c r.negotiated_conformance r.server_max_receive_pdu_size

  start_keeps :
      (b : Bool) (c : DlmsConnection Conformance)
      → R c (if b then after (transition c hls_start) (λ c1 _. (c1, ok false)) else (c, ok false)).0
  start_keeps true c =
      after_keeps kept c _ _ (kept.after_transition c hls_start) (λ d _. kept.reflexive d)
  start_keeps false c = kept.reflexive c

  reject_keeps :
      (c : DlmsConnection Conformance)
      → R c (after (transition c reject_association) (λ c1 _. (c1, ok true))).0
  reject_keeps c =
      after_keeps kept c _ _ (kept.after_transition c reject_association) (λ d _. kept.reflexive d)

  associated_keeps :
      (c : DlmsConnection Conformance) (r : AssociationResult) (m : Option ℕ)
      → R c (associated codec cryptography c r m).0
  unfolding associated
  associated_keeps c accepted m = start_keeps (wants_hls codec cryptography m) c
  associated_keeps c rejected_permanent m = reject_keeps c
  associated_keeps c rejected_transient m = reject_keeps c

  after_association_keeps :
      (c : DlmsConnection Conformance) (a : Apdu Body Conformance)
      → R c (after_association codec cryptography c a).0
  unfolding after_association
  after_association_keeps c (aare r) =
      kept.transitive (negotiated_keeps c r.user_information)
        (associated_keeps _ r.result r.authentication)
  after_association_keeps c (aarq r) = kept.reflexive c
  after_association_keeps c (rlrq r) = kept.reflexive c
  after_association_keeps c (rlre r) = kept.reflexive c
  after_association_keeps c (general_global_cipher g) = kept.reflexive c
  after_association_keeps c (plain b) = kept.reflexive c

  failed_keeps :
      (b : Bool) (c : DlmsConnection Conformance)
      → R c (if b then (c, ok tt) else transition c hls_failed).0
  failed_keeps true c = kept.reflexive c
  failed_keeps false c = kept.after_transition c hls_failed

  verify_meter_keeps :
      (c : DlmsConnection Conformance) (b : Body) → R c (verify_meter codec cryptography c b).0
  unfolding verify_meter
  verify_meter_keeps c b =
      after_keeps kept c _ _ (failed_keeps (codec.action_succeeded b) c)
        λ d _. after_keeps kept d _ _ (kept.reflexive d) (λ e v. kept.after_transition e _)

  verify_class_keeps :
      (t : EventType) (c : DlmsConnection Conformance) (b : Body)
      → R c (verify_class codec cryptography t c b).0
  unfolding verify_class
  verify_class_keeps t c b = elim t as (λ k. R c (verify_class codec cryptography k c b).0) [
    | action_response_normal_with_data ↦ verify_meter_keeps c b
    | action_response_normal_with_error ↦ kept.after_transition c hls_failed
    | action_response_normal ↦ kept.after_transition c hls_failed
    | _ ↦ kept.reflexive c
  ]

  verify_apdu_keeps :
      (c : DlmsConnection Conformance) (a : Apdu Body Conformance)
      → R c (verify_apdu codec cryptography c a).0
  unfolding verify_apdu
  verify_apdu_keeps c (plain b) = verify_class_keeps (codec.body_type b) c b
  verify_apdu_keeps c (aarq r) = kept.reflexive c
  verify_apdu_keeps c (aare r) = kept.reflexive c
  verify_apdu_keeps c (rlrq r) = kept.reflexive c
  verify_apdu_keeps c (rlre r) = kept.reflexive c
  verify_apdu_keeps c (general_global_cipher g) = kept.reflexive c

  handle_hls_keeps :
      (c : DlmsConnection Conformance) (a : Apdu Body Conformance)
      → R c (handle_hls codec cryptography c a).0
  unfolding handle_hls
  handle_hls_keeps c a = elim (Bool-cases (is_hls_done codec cryptography c.state)) [
    | inl x ↦ rw x (verify_apdu_keeps c a)
    | inr x ↦ rw x (kept.reflexive c)
  ]

  settle_keeps :
      (c : DlmsConnection Conformance) (a : Apdu Body Conformance)
      → R c (settle codec cryptography c a).0
  unfolding settle
  settle_keeps c a = after_keeps kept c _ _ (after_association_keeps c a) λ d finished.
      elim finished
        as (λ f.
          R d
            (if f
              then (d, ok a)
              else after (handle_hls codec cryptography d a) (λ c2 _. (c2, ok a))).0) [
                | true ↦ kept.reflexive d
                | false ↦ after_keeps kept d _ _ (handle_hls_keeps d a) (λ e _. kept.reflexive e)
              ]

  pub accept_keeps :
      (c : DlmsConnection Conformance) (a : Apdu Body Conformance)
      → R c (accept codec cryptography c a).0
  unfolding accept
  accept_keeps c a = elim (Bool-cases (c.is_pre_established && is_acse_response a)) [
    | inl x ↦ rw x (kept.reflexive c)
    | inr x ↦ rw x (
        after_keeps kept c _ _ (kept.after_transition c (type_of codec a)) λ d _.
          kept.transitive (kept.after_buffer d []) (settle_keeps (record d { buffer = [] }) a))
  ]

  note_keeps :
      (c : DlmsConnection Conformance) (a : Apdu Body Conformance)
      → R c (note_meter codec cryptography c a)
  unfolding note_meter
  note_keeps c (aare r) =
      kept.after_meter_info c r.system_title r.authentication r.authentication_value
  note_keeps c (aarq r) = kept.reflexive c
  note_keeps c (rlrq r) = kept.reflexive c
  note_keeps c (rlre r) = kept.reflexive c
  note_keeps c (general_global_cipher g) = kept.reflexive c
  note_keeps c (plain b) = kept.reflexive c

  pub handle_apdu_keeps :
      (c : DlmsConnection Conformance) (a : Apdu Body Conformance)
      → R c (handle_apdu codec cryptography c a).0
  unfolding handle_apdu
  handle_apdu_keeps c a =
      kept.transitive (note_keeps c a)
        (after_keeps kept _ _ _ (unprotect_if_keeps _ _ a) accept_keeps)

  handle_parsed_keeps :
      (c : DlmsConnection Conformance) (a : Result (Apdu Body Conformance))
      → R c (handle_parsed codec cryptography c a).0
  unfolding handle_parsed
  handle_parsed_keeps c (raise e) = kept.reflexive c
  handle_parsed_keeps c (ok a) = handle_apdu_keeps c a

  pub next_event_keeps : (c : DlmsConnection Conformance) → R c (next_event codec cryptography c).0
  unfolding next_event
  next_event_keeps c = handle_parsed_keeps c (codec.apdu_from_bytes c.buffer)

  receive_keeps : (c : DlmsConnection Conformance) (bytes : List ℕ) → R c (receive_data c bytes)
  unfolding receive_data
  receive_keeps c bytes = kept.after_buffer c (c.buffer ++ bytes)

  perform_keeps :
      (c : DlmsConnection Conformance) (o : Operation Body Conformance)
      → R c (perform codec cryptography c o)
  unfolding perform
  perform_keeps c (sends a) = send_keeps kept codec cryptography c a
  perform_keeps c (receives bytes) = receive_keeps c bytes
  perform_keeps c next = next_event_keeps c

  pub perform_all_keeps :
      (c : DlmsConnection Conformance) (os : List (Operation Body Conformance))
      → R c (perform_all codec cryptography c os)
  unfolding perform_all
  perform_all_keeps c [] = kept.reflexive c
  perform_all_keeps c (o ∷ os) =
      kept.transitive (perform_keeps c o) (perform_all_keeps (perform codec cryptography c o) os)

-- ===== src/Dlms/Calls.antt =====
-- The calls of DlmsConnection (dlms_cosem/connection.py) in any order, and the relations between the
-- connections before and after them that hold because the single changes of attributes keep them.
pub mod Sending
pub mod Receiving
use dlms_cosem.Prelude.{
  List, [], ◌∷◌, ◌++◌, ℕ, inl, inr, Bool, true, false, not, ◌&&◌, Bool-cases, Option, none, some,
  Result, ok, raise, if◌then◌else◌,
}
use dlms_cosem.Association.State.{
  EventType, end_association, hls_start, hls_failed, reject_association,
  action_response_normal_with_data, action_response_normal, action_response_normal_with_error,
}
use dlms_cosem.Security.Ciphers.{Cryptography}
use dlms_cosem.Dlms.Apdu.{
  Content, initiate_request, global_cipher_initiate_request, initiate_response, AssociationResult,
  accepted, rejected_permanent, rejected_transient, global_cipher_initiate_response, Apdu, aarq,
  aare, rlrq, rlre, general_global_cipher, plain, ApduCodec, type_of,
}
use dlms_cosem.Dlms.Connection.{
  DlmsConnection, use_protection, unprotect, unprotect_content, update_meter_invocation_counter,
  encrypt, encrypt_bytes, protect_content, protect,
}
use dlms_cosem.Dlms.Operations.{
  transition, after, send_accepted, send_protected, end_without_release, associated, verify_class,
  verify_apdu, handle_parsed, wants_hls, is_hls_done, is_acse_response, write, protect_if, send,
  is_acse_request, is_release_request, note_meter, unprotect_if, update_negotiated_parameters,
  after_association, verify_meter, handle_hls, settle, accept, handle_apdu, next_event,
  receive_data,
}

-- A call of a method of the connection.
pub data Operation (Body Conformance : Type 0) : Type 0 where
  sends : Apdu Body Conformance → Operation Body Conformance
  receives : List ℕ → Operation Body Conformance
  next : Operation Body Conformance

module _ {Body Conformance : Type 0} (codec : ApduCodec Body Conformance)
    (cryptography : Cryptography) where
  -- The connection after the call, whether the call returns or raises.
  unfoldable pub perform :
      DlmsConnection Conformance → Operation Body Conformance → DlmsConnection Conformance
  perform c (sends a) = (send codec cryptography c a).0
  perform c (receives bytes) = receive_data c bytes
  perform c next = (next_event codec cryptography c).0

  unfoldable pub perform_all :
      DlmsConnection Conformance → List (Operation Body Conformance) → DlmsConnection Conformance
  perform_all c [] = c
  perform_all c (o ∷ os) = perform_all (perform c o) os

-- What a relation must allow: each change that a method makes to the connection.
pub record IsKept {Conformance : Type 0}
    (R : DlmsConnection Conformance → DlmsConnection Conformance → Type 0) : Type 0 where
  pub reflexive : (c : DlmsConnection Conformance) → R c c
  pub transitive : {c d e : DlmsConnection Conformance} → R c d → R d e → R c e
  pub after_transition : (c : DlmsConnection Conformance) (t : EventType) → R c (transition c t).0
  pub after_encryption :
      (cryptography : Cryptography) (c : DlmsConnection Conformance) (bs : List ℕ)
      → R c (encrypt cryptography c bs).0
  pub after_counter :
      (c : DlmsConnection Conformance) (n : ℕ) → R c (update_meter_invocation_counter c n).0
  pub after_buffer :
      (c : DlmsConnection Conformance) (bytes : List ℕ) → R c (record c { buffer = bytes })
  pub after_meter_info :
      (c : DlmsConnection Conformance) (title : Option (List ℕ)) (method : Option ℕ)
      (challenge : Option (List ℕ))
      → R c (record c {
        meter_system_title = title;
        authentication_method = method;
        meter_to_client_challenge = challenge;
      })
  pub after_negotiation :
      (c : DlmsConnection Conformance) (conformance : Conformance) (size : ℕ)
      → R c (record c { conformance = conformance; max_pdu_size = size })

module _ {Conformance : Type 0}
    {R : DlmsConnection Conformance → DlmsConnection Conformance → Type 0} (kept : IsKept R) where
  pub after_keeps :
      {A B : Type 0} (c : DlmsConnection Conformance) (p : DlmsConnection Conformance × Result A)
      (follow : DlmsConnection Conformance → A → DlmsConnection Conformance × Result B)
      → R c p.0
      → ((d : DlmsConnection Conformance) (a : A) → R d (follow d a).0)
      → R c (after p follow).0
  unfolding after
  after_keeps c (d, raise e) follow g h = g
  after_keeps c (d, ok a) follow g h = kept.transitive g (h d a)

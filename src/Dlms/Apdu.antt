-- ===== src/Dlms/Apdu.antt =====
-- The APDUs as DlmsConnection (dlms_cosem/connection.py) sees them. It looks into those of the ACSE
-- and into ciphered ones; the others, and the attributes that it does not read, are of a type
-- `Body`. Reading and writing APDUs belongs to other modules of the library and is an interface.
use dlms_cosem.Prelude.{ℕ, Bool, Option, List, Result}
use dlms_cosem.Security.Control.{SecurityControlField}
use dlms_cosem.Association.State.{
  EventType, application_association_request, application_association_response, release_request,
  release_response, other_event,
}

-- GlobalCipherInitiateRequest and GlobalCipherInitiateResponse.
pub record CipheredInitiate : Type 0 where
  pub security_control : SecurityControlField
  pub invocation_counter : ℕ
  pub ciphered_text : List ℕ

pub record InitiateResponse (Conformance : Type 0) : Type 0 where
  pub negotiated_conformance : Conformance
  pub server_max_receive_pdu_size : ℕ

-- The content of a UserInformation.
pub data Content (Body Conformance : Type 0) : Type 0 where
  initiate_request : Body → Content Body Conformance
  global_cipher_initiate_request : CipheredInitiate → Content Body Conformance
  initiate_response : InitiateResponse Conformance → Content Body Conformance
  global_cipher_initiate_response : CipheredInitiate → Content Body Conformance

pub data AssociationResult : Type 0 where
  accepted rejected_permanent rejected_transient : AssociationResult

-- ApplicationAssociationRequest and ReleaseRequest.
pub record AssociationRequest (Body Conformance : Type 0) : Type 0 where
  pub user_information : Option (Content Body Conformance)
  pub others : Body

-- ApplicationAssociationResponse; `authentication` is the value of the mechanism.
pub record AssociationResponse (Body Conformance : Type 0) : Type 0 where
  pub result : AssociationResult
  pub system_title : Option (List ℕ)
  pub authentication : Option ℕ
  pub authentication_value : Option (List ℕ)
  pub user_information : Option (Content Body Conformance)
  pub others : Body

pub record GeneralGlobalCipher : Type 0 where
  pub system_title : Option (List ℕ)
  pub security_control : SecurityControlField
  pub invocation_counter : ℕ
  pub ciphered_text : List ℕ

pub data Apdu (Body Conformance : Type 0) : Type 0 where
  aarq : AssociationRequest Body Conformance → Apdu Body Conformance
  aare : AssociationResponse Body Conformance → Apdu Body Conformance
  rlrq : AssociationRequest Body Conformance → Apdu Body Conformance
  rlre : AssociationRequest Body Conformance → Apdu Body Conformance
  general_global_cipher : GeneralGlobalCipher → Apdu Body Conformance
  plain : Body → Apdu Body Conformance

-- The APDU classes and factories, as far as the connection calls them.
pub record ApduCodec (Body Conformance : Type 0) : Type 0 where
  -- `type(event)` and `isinstance(event, AbstractXDlmsApdu)`
  pub body_type : Body → EventType
  pub is_xdlms : Body → Bool
  -- `event.to_bytes()`, and that of the content of a UserInformation
  pub to_bytes : Apdu Body Conformance → Result (List ℕ)
  pub content_to_bytes : Content Body Conformance → Result (List ℕ)
  -- `XDlmsApduFactory.apdu_from_bytes` and `InitiateResponse.from_bytes`
  pub apdu_from_bytes : List ℕ → Result (Apdu Body Conformance)
  pub initiate_response_from_bytes : List ℕ → Result (InitiateResponse Conformance)
  -- of an ActionResponseNormalWithData: `status == SUCCESS` and `parse_as_dlms_data(data)`
  pub action_succeeded : Body → Bool
  pub action_data : Body → Result (List ℕ)

module _ {Body Conformance : Type 0} (codec : ApduCodec Body Conformance) where
  unfoldable pub type_of : Apdu Body Conformance → EventType
  type_of (aarq r) = application_association_request
  type_of (aare r) = application_association_response
  type_of (rlrq r) = release_request
  type_of (rlre r) = release_response
  type_of (general_global_cipher g) = other_event
  type_of (plain b) = codec.body_type b

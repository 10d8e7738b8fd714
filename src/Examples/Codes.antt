-- ===== src/Examples/Codes.antt =====
-- The theorems of the codecs, the check sequence, the association and the wrapper at concrete inputs.
use dlms_cosem.Prelude.{
  inl, ℕ, ◌+◌, ◌≡◌, ◌≢◌, ◌⊎◌, refl, ap, arith, true, false, Option, some, List, [], ◌∷◌, ◌++◌,
  length, take, drop, take_prefix, drop_prefix, Result, ok, raise, ◌>>=◌, IsByte, value_error,
}
use mathlib.Core.List.{Memᴰ}
use dlms_cosem.Crc.Defs.{calculate_for}
use dlms_cosem.Crc.Total.{calculate_for-two_bytes}
use dlms_cosem.Crc.Detect.{calculate_for_detects}
use dlms_cosem.Hdlc.Fields.Information
use dlms_cosem.Hdlc.Fields.Information.{InformationControlField}
use dlms_cosem.Hdlc.Fields.FrameFormat.{DlmsHdlcFrameFormatField}
use dlms_cosem.Data.VariableInteger.{
  encode_variable_integer, decode_variable_integer, decode-encode,
}
use dlms_cosem.Xdlms.InvokeId
use dlms_cosem.Xdlms.InvokeId.{InvokeIdAndPriority, invoke_round_trip}
use dlms_cosem.Xdlms.GetResponse.Defs.{GetResponse, get_response_normal, get_response_last_block}
use dlms_cosem.Xdlms.GetResponse.Defs as GetResponses
use dlms_cosem.Xdlms.GetResponse.Classes.{normal_class}
use dlms_cosem.Xdlms.GetResponse.Agreement.{factory_agrees}
use dlms_cosem.Xdlms.GetResponse.RoundTrip.{get_response_round_trip}
use dlms_cosem.Association.State.{
  DlmsState, EventType, process_events, no_association, ready, hls_start, hls_success, hls_done,
  should_send_hls_sever_challenge_result, application_association_request,
  application_association_response, action_request_normal, action_response_normal_with_data,
  get_request_normal, awaiting_get_response,
}
use dlms_cosem.Association.State as State
use dlms_cosem.Association.Traces.{
  is_awaiting, is_request, is_response, count, requests_balance, unlocked_by,
}
use dlms_cosem.Wrapper.Defs.{
  WrapperProtocolDataUnit, WrapperHeader, IoImplementation, wrap, recv_response,
}
use dlms_cosem.Wrapper.Defs as Wrapper
use dlms_cosem.Wrapper.RoundTrip.{Fits, Delivers, recv_response-wrap}

calculate_for_detects_example :
    calculate_for (1 ∷ 2 ∷ 3 ∷ []) false ≢ calculate_for (1 ∷ 7 ∷ 3 ∷ []) false
calculate_for_detects_example =
    calculate_for_detects (1 ∷ []) (3 ∷ []) 2 7 false
      (omega arith, (omega arith, (omega arith, tt)))
      (omega arith, (omega arith, (omega arith, tt))) (ground arith)

calculate_for-two_bytes_example :
    (x : ℕ) × (y : ℕ) × (calculate_for (1 ∷ 2 ∷ []) true ≡ ok (x ∷ y ∷ [])) × IsByte x × IsByte y
calculate_for-two_bytes_example =
    calculate_for-two_bytes (1 ∷ 2 ∷ []) true (omega arith, (omega arith, tt))

abbrev info_field : InformationControlField
info_field = record { send_sequence_number = 3; receive_sequence_number = 6; final = true }

info_read : Information.from_bytes (0xd6 ∷ []) ≡ ok info_field
unfolding Information.from_bytes
info_read = refl

abbrev long_format : DlmsHdlcFrameFormatField
long_format = record { length_of_frame = 1000; segmented = true }

decode-encode_example :
    (bytes : List ℕ) × (encode_variable_integer 1000 ≡ ok bytes)
    × (decode_variable_integer (bytes ++ (5 ∷ [])) ≡ ok (1000, 5 ∷ []))
decode-encode_example = decode-encode 1000 (5 ∷ []) (ground arith)

abbrev invoke : InvokeIdAndPriority
invoke = record { invoke_id = 1; confirmed = true; high_priority = true }

-- A factory whose lists always fail to parse.
no_lists : List ℕ → Result (Option GetResponse)
no_lists bytes = raise value_error

abbrev last_block : GetResponse
last_block = get_response_last_block (1 ∷ 2 ∷ 3 ∷ []) 70000 invoke

get_response_round_trip_example :
    (GetResponses.to_bytes last_block >>= GetResponses.from_bytes no_lists) ≡ ok (some last_block)
get_response_round_trip_example = get_response_round_trip no_lists last_block (record {
  invoke_small = omega arith;
  number_small = ground arith;
  octets_small = ground arith;
})

abbrev hls_events : List EventType
hls_events =
    application_association_request ∷ application_association_response ∷ hls_start
    ∷ action_request_normal ∷ action_response_normal_with_data ∷ hls_success ∷ get_request_normal
    ∷ []

hls_run : process_events no_association hls_events ≡ ok awaiting_get_response
unfolding process_events State.process_event State.dlms_state_transitions
hls_run = refl

requests_balance_example : 0 + count is_request hls_events ≡ 1 + count is_response hls_events
unfolding is_awaiting
requests_balance_example = requests_balance no_association awaiting_get_response hls_events hls_run

unlocked_by_example : Memᴰ hls_success hls_events ⊎ Memᴰ application_association_request hls_events
unlocked_by_example = unlocked_by no_association awaiting_get_response hls_events refl hls_run refl

abbrev unit : WrapperProtocolDataUnit
unit = record {
  content = 0xc0 ∷ 0x01 ∷ [];
  wrapper_header = record {
    source_wport = 16;
    destination_wport = 1;
    length_of_data = 2;
    version = 1;
  };
}

unit-Fits : Fits unit.wrapper_header
unit-Fits = record {
  source_fits = omega arith;
  destination_fits = omega arith;
  length_fits = omega arith;
  version_fits = omega arith;
}

-- A connection that holds the bytes still to come.
abbrev stream : IoImplementation (List ℕ)
stream = record { recv = λ bytes amount. (ok (take amount bytes), drop amount bytes) }

stream-Delivers : Delivers stream (λ bytes. bytes)
stream-Delivers s front back e =
    rw e (
      ap ok (take_prefix front back (length front) refl),
      drop_prefix front back (length front) refl,
    )

wrapped_bytes :
    wrap 16 1 (0xc0 ∷ 0x01 ∷ []) ≡ ok (0 ∷ 1 ∷ 0 ∷ 16 ∷ 0 ∷ 1 ∷ 0 ∷ 2 ∷ 0xc0 ∷ 0x01 ∷ [])
unfolding wrap Wrapper.to_bytes Wrapper.header_to_bytes
wrapped_bytes = refl

recv_response-wrap_example :
    ((recv_response stream (0 ∷ 1 ∷ 0 ∷ 16 ∷ 0 ∷ 1 ∷ 0 ∷ 2 ∷ 0xc0 ∷ 0x01 ∷ 9 ∷ [])).0
      ≡ ok (0xc0 ∷ 0x01 ∷ []))
    × ((recv_response stream (0 ∷ 1 ∷ 0 ∷ 16 ∷ 0 ∷ 1 ∷ 0 ∷ 2 ∷ 0xc0 ∷ 0x01 ∷ 9 ∷ [])).1 ≡ 9 ∷ [])
recv_response-wrap_example =
    recv_response-wrap stream (λ bytes. bytes) stream-Delivers 16 1 (0xc0 ∷ 0x01 ∷ []) (9 ∷ [])
      (0 ∷ 1 ∷ 0 ∷ 16 ∷ 0 ∷ 1 ∷ 0 ∷ 2 ∷ 0xc0 ∷ 0x01 ∷ [])
      (0 ∷ 1 ∷ 0 ∷ 16 ∷ 0 ∷ 1 ∷ 0 ∷ 2 ∷ 0xc0 ∷ 0x01 ∷ 9 ∷ []) (omega arith) (omega arith)
      (omega arith) wrapped_bytes refl

normal_read :
    normal_class (0xc4 ∷ 0x01 ∷ 0xc1 ∷ 0x00 ∷ 0x11 ∷ 0x05 ∷ [])
    ≡ ok (get_response_normal (0x11 ∷ 0x05 ∷ []) invoke)
unfolding normal_class InvokeId.from_bytes
normal_read = refl

factory_agrees_example :
    GetResponses.from_bytes no_lists (0xc4 ∷ 0x01 ∷ 0xc1 ∷ 0x00 ∷ 0x11 ∷ 0x05 ∷ [])
    ≡ ok (some (get_response_normal (0x11 ∷ 0x05 ∷ []) invoke))
factory_agrees_example =
    factory_agrees no_lists (0xc4 ∷ 0x01 ∷ 0xc1 ∷ 0x00 ∷ 0x11 ∷ 0x05 ∷ [])
      (get_response_normal (0x11 ∷ 0x05 ∷ []) invoke) (inl (inl normal_read))

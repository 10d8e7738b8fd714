-- ===== src/Examples/Services.antt =====
-- Requests and responses of the ACTION and the SET service at concrete values.
use dlms_cosem.Prelude.{
  ℕ, value_error, raise, ◌≡◌, refl, arith, true, none, some, [], ◌∷◌, ok, ◌>>=◌,
}
use dlms_cosem.Cosem.Method.{CosemMethod, IsMethod}
use dlms_cosem.Cosem.Interface.{association_ln, clock}
use dlms_cosem.Xdlms.InvokeId.{InvokeIdAndPriority}
use dlms_cosem.Xdlms.Enumerations.{read_write_denied}
use dlms_cosem.Xdlms.Action.Status.{success}
use dlms_cosem.Xdlms.Action.Defs.{
  ActionRequestNormal, action_response_normal_with_data, request_to_bytes, request_from_bytes,
  request_factory, to_bytes, from_bytes,
}
use dlms_cosem.Xdlms.Action.RoundTrip.{written, request_round_trip, response_round_trip}
use dlms_cosem.Cosem.Descriptors.{RangeCodec}
use dlms_cosem.Cosem.Selection.{CosemAttributeWithSelection, IsWhole}
use dlms_cosem.Xdlms.GetRequest.Defs.{GetRequest, get_request_with_list}
use dlms_cosem.Xdlms.GetRequest.Defs as GetRequests
use dlms_cosem.Xdlms.GetRequest.RoundTrip.{get_request_round_trip}
use dlms_cosem.Xdlms.Set.RequestKind
use dlms_cosem.Xdlms.Set.Defs.{
  SetRequest, set_response_last_block, normal_to_bytes, first_block_to_bytes,
}
use dlms_cosem.Xdlms.Set.Defs as Set
use dlms_cosem.Xdlms.Set.RoundTrip.{set_request_round_trip, set_response_round_trip}

abbrev confirmed_invoke : InvokeIdAndPriority
confirmed_invoke = record { invoke_id = 1; confirmed = true; high_priority = true }

-- Reply_to_HLS of the current association.
abbrev reply_to_hls : CosemMethod
reply_to_hls = record {
  interface = association_ln;
  instance_ = record { a = 0; b = 0; c = 40; d = 0; e = 0; f = 255 };
  method = 1;
}

reply_to_hls-IsMethod : IsMethod reply_to_hls
reply_to_hls-IsMethod = omega arith

abbrev reply : ActionRequestNormal
reply = record {
  cosem_method = reply_to_hls;
  octets = some (9 ∷ 1 ∷ 7 ∷ []);
  invoke_id_and_priority = confirmed_invoke;
}

request_round_trip_example :
    ((request_to_bytes reply >>= request_from_bytes) ≡ ok (written reply))
    × ((request_to_bytes reply >>= request_factory) ≡ ok (written reply))
request_round_trip_example = request_round_trip reply (omega arith) reply_to_hls-IsMethod

response_round_trip_example :
    (to_bytes (action_response_normal_with_data success (9 ∷ 1 ∷ 7 ∷ []) confirmed_invoke)
      >>= from_bytes)
    ≡ ok (some (action_response_normal_with_data success (9 ∷ 1 ∷ 7 ∷ []) confirmed_invoke))
response_round_trip_example =
    response_round_trip (action_response_normal_with_data success (9 ∷ 1 ∷ 7 ∷ []) confirmed_invoke)
      (omega arith)

abbrev set_time : SetRequest
set_time = record {
  cosem_attribute = record {
    interface = clock;
    instance_ = record { a = 0; b = 0; c = 1; d = 0; e = 0; f = 255 };
    method = 2;
  };
  octets = 17 ∷ 4 ∷ [];
  access_selection = none;
  invoke_id_and_priority = confirmed_invoke;
}

set_time-IsMethod : IsMethod set_time.cosem_attribute
set_time-IsMethod = omega arith

set_request_round_trip_example :
    ((normal_to_bytes set_time >>= Set.request_factory) ≡ ok (RequestKind.normal, set_time))
    × ((first_block_to_bytes set_time >>= Set.request_factory)
        ≡ ok (RequestKind.with_first_block, set_time))
set_request_round_trip_example =
    set_request_round_trip set_time (omega arith) set_time-IsMethod refl (omega arith)

set_response_round_trip_example :
    (Set.to_bytes (set_response_last_block read_write_denied confirmed_invoke 3) >>= Set.from_bytes)
    ≡ ok (set_response_last_block read_write_denied confirmed_invoke 3)
set_response_round_trip_example =
    set_response_round_trip (set_response_last_block read_write_denied confirmed_invoke 3)
      (omega arith) (omega arith)

-- No range is read or written.
abbrev no_ranges : RangeCodec ℕ
no_ranges = record { to_bytes = λ r. raise value_error; from_bytes = λ bs. raise value_error }

abbrev whole : CosemAttributeWithSelection ℕ
whole = record { attribute = set_time.cosem_attribute; access_selection = none }

whole-IsWhole : IsWhole no_ranges whole
whole-IsWhole = record { attribute_fits = set_time-IsMethod; unselected = refl }

abbrev list_request : GetRequest ℕ
list_request = get_request_with_list (whole ∷ whole ∷ []) confirmed_invoke

get_request_round_trip_example :
    (GetRequests.to_bytes no_ranges list_request >>= GetRequests.from_bytes no_ranges)
    ≡ ok list_request
get_request_round_trip_example =
    get_request_round_trip no_ranges list_request (omega arith)
      (omega arith, (whole-IsWhole, (whole-IsWhole, tt)))

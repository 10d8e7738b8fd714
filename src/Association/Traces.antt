-- ===== src/Association/Traces.antt =====
-- Sequences of events through DlmsConnectionState (dlms_cosem/state.py).
use dlms_cosem.Prelude.{
  ℕ, ◌+◌, ◌≡◌, ◌⊎◌, inl, inr, sym, arith, Bool, true, false, some, List, [], ◌∷◌, Option-cases, ok,
  raise, local_dlms_protocol_error,
}
use mathlib.Core.List.{Memᴰ}
use dlms_cosem.Association.State.{
  DlmsState, EventType, dlms_state_transitions, process_event, process_events, no_association,
  awaiting_association_response, awaiting_release_response, awaiting_get_response,
  awaiting_set_response, should_send_hls_sever_challenge_result, awaiting_action_response,
  awaiting_hls_client_challenge_result, hls_done, awaiting_get_block_response,
  application_association_request, application_association_response, exception_response,
  release_request, get_request_normal, get_request_with_list, set_request_normal,
  action_request_normal, action_response_normal_with_data, action_response_normal,
  action_response_normal_with_error, hls_success, get_response_normal, get_response_with_list,
  get_response_with_block, get_response_normal_with_error, get_response_last_block_with_error,
  get_response_last_block, set_response_normal, get_request_next, release_response,
}

-- Requests of the client, and the responses that answer them.
unfoldable pub is_request : EventType → Bool
is_request application_association_request = true
is_request release_request = true
is_request get_request_normal = true
is_request get_request_with_list = true
is_request set_request_normal = true
is_request action_request_normal = true
is_request get_request_next = true
is_request _ = false

pub is_response : EventType → Bool
is_response application_association_response = true
is_response exception_response = true
is_response action_response_normal_with_data = true
is_response action_response_normal = true
is_response action_response_normal_with_error = true
is_response get_response_normal = true
is_response get_response_with_list = true
is_response get_response_with_block = true
is_response get_response_normal_with_error = true
is_response get_response_last_block_with_error = true
is_response get_response_last_block = true
is_response set_response_normal = true
is_response release_response = true
is_response _ = false

-- The states in which a response is outstanding.
unfoldable pub is_awaiting : DlmsState → Bool
is_awaiting awaiting_association_response = true
is_awaiting awaiting_release_response = true
is_awaiting awaiting_get_response = true
is_awaiting awaiting_set_response = true
is_awaiting awaiting_action_response = true
is_awaiting awaiting_hls_client_challenge_result = true
is_awaiting awaiting_get_block_response = true
is_awaiting _ = false

abbrev count_if : Bool → ℕ
count_if true = 1
count_if false = 0

pub count : (EventType → Bool) → List EventType → ℕ
count p [] = 0
count p (e ∷ es) = count_if (p e) + count p es

step_balance :
    (s s' : DlmsState) (e : EventType)
    → dlms_state_transitions s e ≡ some s'
    → count_if (is_awaiting s) + count_if (is_request e)
      ≡ count_if (is_awaiting s') + count_if (is_response e)
unfolding dlms_state_transitions is_awaiting is_request is_response
step_balance s s' e h = ground arith

-- While a response is outstanding no request is accepted, and a request that is accepted leaves one
-- outstanding.
pub request_refused :
    (s : DlmsState) (e : EventType)
    → is_awaiting s ≡ true
    → is_request e ≡ true
    → process_event s e ≡ raise local_dlms_protocol_error
unfolding process_event dlms_state_transitions is_request is_awaiting
request_refused s e w q = ground arith

pub request_awaits :
    (s t : DlmsState) (e : EventType)
    → is_request e ≡ true
    → process_event s e ≡ ok t
    → is_awaiting t ≡ true
unfolding process_event dlms_state_transitions is_request is_awaiting
request_awaits s t e q h = ground arith

-- Along every sequence of events that is accepted, what is outstanding at the start and the requests
-- are in number what is outstanding at the end and the responses.
pub requests_balance :
    (s s' : DlmsState) (es : List EventType)
    → process_events s es ≡ ok s'
    → count_if (is_awaiting s) + count is_request es
      ≡ count_if (is_awaiting s') + count is_response es
unfolding process_events process_event count
requests_balance s s' [] h = ground arith
requests_balance s s' (e ∷ es) h = elim (Option-cases (dlms_state_transitions s e)) [
  | inl n ↦ cc (rw n at h)
  | inr (t, q) ↦ omega (arith, step_balance s t e q, requests_balance t s' es (rw q at h))
]

-- The association is open to services only after it was set up, and after HLS only when it succeeded.
abbrev pub is_locked : DlmsState → Bool
is_locked no_association = true
is_locked should_send_hls_sever_challenge_result = true
is_locked awaiting_hls_client_challenge_result = true
is_locked hls_done = true
is_locked _ = false

locked_step :
    (s s' : DlmsState) (e : EventType)
    → is_locked s ≡ true
    → dlms_state_transitions s e ≡ some s'
    → ((e ≡ hls_success) ⊎ (e ≡ application_association_request)) ⊎ (is_locked s' ≡ true)
unfolding dlms_state_transitions
locked_step s s' e l h = ground arith

-- From a state without an association or with HLS begun, a sequence of accepted events that ends in
-- another state holds a success of HLS or an association request.
pub unlocked_by :
    (s s' : DlmsState) (es : List EventType)
    → is_locked s ≡ true
    → process_events s es ≡ ok s'
    → is_locked s' ≡ false
    → Memᴰ hls_success es ⊎ Memᴰ application_association_request es
unfolding process_events process_event
unlocked_by s s' [] l h u = cc
unlocked_by s s' (e ∷ es) l h u = elim (Option-cases (dlms_state_transitions s e)) [
  | inl n ↦ cc (rw n at h)
  | inr (t, q) ↦ elim (locked_step s t e l q) [
    | inl (inl p) ↦ inl (Memᴰ.head (sym p))
    | inl (inr p) ↦ inr (Memᴰ.head (sym p))
    | inr l' ↦ elim (unlocked_by t s' es l' (rw q at h) u) [
      | inl m ↦ inl (Memᴰ.tail m)
      | inr m ↦ inr (Memᴰ.tail m)
    ]
  ]
]

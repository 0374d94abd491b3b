-- ===== src/Ice/Requests.antt =====
-- ice/stun_request.cpp, and of ice/ice_connection.cpp what an error response leads to: the requests that
-- wait for a response, by transaction id. A request is known by its address.
use web_rtcserver.Prelude.{
  ℕ, zero, suc, ◌-◌, Bool, true, false, List, [], ◌∷◌, Option, none, some, ◌==◌, ◌||◌,
  if◌then◌else◌, length,
}
use web_rtcserver.Prelude.Maps.{lookup, insert, erase}
use web_rtcserver.Prelude.Heap.{object_at, store, free}
use web_rtcserver.Stun.Types.{
  StunMessage, get_stun_success_response, get_stun_error_response, stun_error_unathorized,
  stun_error_unknown_attribute, stun_error_server_error,
}
use web_rtcserver.Stun.Parse.{get_error_code_value}

-- What a `StunRequest` is asked for: the transaction id and the type of its message, and the time at
-- which it was sent.
pub record StunRequest : Type 0 where
  pub id : List ℕ
  pub type : ℕ
  pub ts : ℕ

-- The map from transaction ids to requests, and the requests that are alive.
pub record StunRequestManager : Type 0 where
  pub requests : List (List ℕ × ℕ)
  pub heap : List (ℕ × StunRequest)

-- `on_request_response` or `on_request_error_response`.
pub data Handler : Type 0 where
  response error_response : StunRequest → Handler

-- `send`, of a request made at the address `at`.
unfoldable pub send : ℕ → StunRequest → StunRequestManager → StunRequestManager
send at request m = record {
  requests = insert request.id at m.requests;
  heap = store at request m.heap;
}

unfoldable pub remove : List ℕ → StunRequestManager → StunRequestManager
remove id m = elim (lookup id m.requests) [
  | none ↦ m
  | some request ↦ record m { requests = erase id m.requests }
]

-- `delete request`, with the destructor of the request; `none` where it is deleted already.
unfoldable pub delete_request : ℕ → StunRequestManager → Option StunRequestManager
unfolding remove
delete_request at m = elim (object_at at m.heap) [
  | none ↦ none
  | some request ↦
      let removed = remove request.id m in some (record removed { heap = free at removed.heap })
]

-- The loop of `~StunRequestManager`, on fuel: each round takes an entry off the map.
unfoldable pub destroy_loop : ℕ → StunRequestManager → Option StunRequestManager
unfolding delete_request
destroy_loop zero m = elim m.requests [ [] ↦ some m | entry ∷ rest ↦ none ]
destroy_loop (suc n) m = elim m.requests [
  | [] ↦ some m
  | ((id, at) ∷ rest) ↦ elim (delete_request at (record m { requests = erase id m.requests })) [
    | none ↦ none
    | some m' ↦ destroy_loop n m'
  ]
]

-- `~StunRequestManager`.
unfoldable pub destroy_manager : StunRequestManager → Option StunRequestManager
unfolding destroy_loop
destroy_manager m = destroy_loop (length m.requests) m

-- `type == t`, where `none` is -1.
abbrev pub is_type : ℕ → Option ℕ → Bool
is_type type none = false
is_type type (some t) = type == t

-- Whether `on_connection_request_error_response` goes on to `fail_and_destroy`.
unfoldable pub fails_on : StunMessage → Bool
fails_on msg =
    if get_error_code_value msg == stun_error_unathorized
      || (get_error_code_value msg == stun_error_unknown_attribute
          || get_error_code_value msg == stun_error_server_error)
    then false
    else true

-- `on_connection_request_error_response`: the connection is deleted with its manager, or all stays.
unfoldable pub on_error_response : StunMessage → StunRequestManager → Option StunRequestManager
unfolding fails_on destroy_manager
on_error_response msg m = if fails_on msg then destroy_manager m else some m

-- A call of `check_response`: the state, the handler that was called and the result, or a request
-- that is used after it was deleted.
pub data CheckResult : Type 0 where
  returns : StunRequestManager → Option Handler → Bool → CheckResult
  faults : CheckResult

abbrev pub finish : Option StunRequestManager → Option Handler → Bool → CheckResult
finish none handler ok = faults
finish (some m) handler ok = returns m handler ok

-- The `delete request` behind the handler.
abbrev pub delete_after : ℕ → Option StunRequestManager → Option Handler → Bool → CheckResult
delete_after at none handler ok = faults
delete_after at (some m) handler ok = finish (delete_request at m) handler ok

-- The branches for a request that was found.
unfoldable pub answer_request : StunMessage → ℕ → StunRequest → StunRequestManager → CheckResult
unfolding delete_request on_error_response
answer_request msg at request m =
    if is_type msg.type (get_stun_success_response request.type)
    then delete_after at (some m) (some (response request)) true
    else if is_type msg.type (get_stun_error_response request.type)
    then delete_after at (on_error_response msg m) (some (error_response request)) true
    else delete_after at (some m) none false

unfoldable pub check_response : StunMessage → StunRequestManager → CheckResult
unfolding answer_request
check_response msg m = elim (lookup msg.transaction_id m.requests) [
  | none ↦ returns m none false
  | some at ↦ elim (object_at at m.heap) [
    | none ↦ faults
    | some request ↦ answer_request msg at request m
  ]
]

-- `elapsed` at the time that it reads.
unfoldable pub elapsed : ℕ → StunRequest → ℕ
elapsed now request = now - request.ts

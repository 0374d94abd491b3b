-- ===== src/Ice/Answers.antt =====
-- Of ice/stun_request.cpp: which responses are answered, and which one deletes a request twice.
use web_rtcserver.Prelude.{
  ℕ, ◌≡◌, ◌≢◌, ◌↔◌, ◌⊎◌, refl, sym, ap, ◌∙◌, Bool, true, false, Option, none, some, ◌==◌, ◌||◌,
  if◌then◌else◌, length, arith, inl, inr, Option-cases, Bool-cases,
}
use web_rtcserver.Prelude.Maps.{lookup, erase}
use web_rtcserver.Prelude.Heap.{object_at}
use web_rtcserver.Stun.Types.{StunMessage, get_stun_success_response, get_stun_error_response}
use web_rtcserver.Stun.Parse.{get_error_code_value}
use web_rtcserver.Ice.Requests.{
  StunRequest, StunRequestManager, Handler, response, error_response, delete_request,
  destroy_manager, is_type, fails_on, on_error_response, returns, faults, delete_after,
  answer_request, check_response,
}
use web_rtcserver.Ice.Deletions.{
  IsWaiting, without, lookup-erase_self, without-IsWaiting, delete_request_lem, destroy_loop-IsGone,
}

-- An error response to a request that waits, with a code other than 401, 420 and 500.
pub record IsFatal (msg : StunMessage) (m : StunRequestManager) : Type 0 where
  pub at : ℕ
  pub request : StunRequest
  pub waits : lookup msg.transaction_id m.requests ≡ some at
  pub lives : object_at at m.heap ≡ some request
  pub no_success : is_type msg.type (get_stun_success_response request.type) ≡ false
  pub is_error : is_type msg.type (get_stun_error_response request.type) ≡ true
  pub code :
      (get_error_code_value msg ≢ 401)
      × (get_error_code_value msg ≢ 420)
      × (get_error_code_value msg ≢ 500)

fails_on_iff :
    (msg : StunMessage)
    → (fails_on msg ≡ true) ↔ (
        (get_error_code_value msg ≢ 401)
        × (get_error_code_value msg ≢ 420)
        × (get_error_code_value msg ≢ 500))
unfolding fails_on
fails_on_iff msg = codes_iff (get_error_code_value msg)
  where
    codes_iff :
        (n : ℕ)
        → ((if n == 401 || (n == 420 || n == 500) then false else true) ≡ true)
          ↔ ((n ≢ 401) × (n ≢ 420) × (n ≢ 500))
    codes_iff n = ground arith

-- Where the manager is destroyed, its request is deleted a second time.
deletes_twice :
    (msg : StunMessage) (at : ℕ) (request : StunRequest) (m : StunRequestManager)
    (handler : Option Handler) (ok : Bool)
    → IsWaiting m
    → lookup request.id m.requests ≡ some at
    → fails_on msg ≡ true
    → delete_after at (on_error_response msg m) handler ok ≡ faults
unfolding on_error_response destroy_manager delete_request
deletes_twice msg at request m handler ok h e fails =
    let (after, ends, gone) = destroy_loop-IsGone (length m.requests) m h (omega arith) in
    simp (on_error_response, fails, destroy_manager, ends, delete_request, gone.freed _ at e)

module _ (msg : StunMessage) (at : ℕ) (request : StunRequest) (m : StunRequestManager)
    (h : IsWaiting m) (lives : object_at at m.heap ≡ some request)
    (waits : lookup request.id m.requests ≡ some at) where
  deletes_once :
      (handler : Option Handler) (ok : Bool)
      → delete_after at (some m) handler ok ≡ returns (without request.id at m) handler ok
  deletes_once handler ok = rw (delete_request_lem request at m lives waits) refl

  -- The request is deleted once, or twice.
  answer_cases :
      ((is_type msg.type (get_stun_success_response request.type) ≡ false)
        × (is_type msg.type (get_stun_error_response request.type) ≡ true)
        × (fails_on msg ≡ true)
        × (answer_request msg at request m ≡ faults))
      ⊎ ((is_type msg.type (get_stun_success_response request.type) ≡ false
            → is_type msg.type (get_stun_error_response request.type) ≡ true
            → fails_on msg ≢ true)
          × (handler : Option Handler) × (ok : Bool) × (answer_request msg at request m
              ≡ returns (without request.id at m) handler ok))
  unfolding answer_request on_error_response
  answer_cases = elim (Bool-cases (is_type msg.type (get_stun_success_response request.type))) [
    | inl t ↦ inr (
      λ u v w. ground (arith, t, u),
      some (response request),
      true,
      simp (answer_request, t) (deletes_once (some (response request)) true),
    )
    | inr t ↦ elim (Bool-cases (is_type msg.type (get_stun_error_response request.type))) [
      | inr u ↦ inr (
        λ a b w. ground (arith, u, b),
        none,
        false,
        simp (answer_request, t, u) (deletes_once none false),
      )
      | inl u ↦ elim (Bool-cases (fails_on msg)) [
        | inl v ↦ inl (
          t,
          u,
          v,
          simp (answer_request, t, u)
              (deletes_twice msg at request m (some (error_response request)) true h waits v),
        )
        | inr v ↦ inr (
          λ a b w. ground (arith, v, w),
          some (error_response request),
          true,
          simp (answer_request, t, u, on_error_response, v)
              (deletes_once (some (error_response request)) true),
        )
      ]
    ]
  ]

-- The request of a fatal response is the one that waits.
same_type :
    (msg : StunMessage) (m : StunRequestManager) (f : IsFatal msg m) (at : ℕ)
    (request : StunRequest)
    → lookup msg.transaction_id m.requests ≡ some at
    → object_at at m.heap ≡ some request
    → f.request.type ≡ request.type
same_type msg m f at request e lives = ap type_of (sym f.lives ∙ ap place (sym f.waits ∙ e) ∙ lives)
  where
    type_of : Option StunRequest → ℕ
    type_of none = 0
    type_of (some r) = r.type

    place : Option ℕ → Option StunRequest
    place none = none
    place (some a) = object_at a m.heap

-- On a manager whose entries are requests that are alive: `check_response` deletes a request twice
-- if the message is an error response to a waiting request with a code other than 401, 420 and 500,
-- since the connection is then deleted with the manager and its requests. Else it returns, the
-- entries left are alive, and a second message with the same transaction id, of whatever type,
-- reaches no handler and changes nothing.
pub check_response_once :
    (msg again : StunMessage) (m : StunRequestManager)
    → IsWaiting m
    → again.transaction_id ≡ msg.transaction_id
    → (IsFatal msg m × (check_response msg m ≡ faults))
      ⊎ ((¬ IsFatal msg m)
          × (after : StunRequestManager) × (handler : Option Handler) × (ok : Bool)
          × (check_response msg m ≡ returns after handler ok)
          × IsWaiting after
          × (check_response again after ≡ returns after none false))
unfolding check_response
check_response_once msg again m h same =
    elim (Option-cases (lookup msg.transaction_id m.requests)) [
      | inl e ↦
          let again_none = ap (λ id. lookup id m.requests) same ∙ e in
          inr (
            λ f. ground (arith, sym e ∙ f.waits),
            m,
            none,
            false,
            simp (check_response, e),
            h,
            simp (check_response, again_none),
          )
      | inr (at, e) ↦
          let (request, lives, its) = h.alive msg.transaction_id at e in
          let c : check_response msg m ≡ answer_request msg at request m =
            simp (check_response, e, lives) in
          let waits = ap (λ id. lookup id m.requests) its ∙ e in
          elim (answer_cases msg at request m h lives waits) [
            | inl (failed, error, fails, a) ↦ inl (
              record {
                at = at;
                request = request;
                waits = e;
                lives = lives;
                no_success = failed;
                is_error = error;
                code = (fails_on_iff msg).0 fails;
              },
              c ∙ a,
            )
            | inr (safe, handler, done, a) ↦
                let again_none =
                  ap (λ id. lookup id (erase request.id m.requests)) (same ∙ sym its)
                  ∙ lookup-erase_self request.id m.requests in
                inr (
                  λ f.
                      let one = same_type msg m f at request e lives in
                      safe
                        (ap (λ t. is_type msg.type (get_stun_success_response t)) (sym one)
                          ∙ f.no_success)
                        (ap (λ t. is_type msg.type (get_stun_error_response t)) (sym one)
                          ∙ f.is_error)
                        ((fails_on_iff msg).1 f.code),
                  without request.id at m,
                  handler,
                  done,
                  c ∙ a,
                  without-IsWaiting request at m h lives,
                  simp (check_response, again_none),
                )
          ]
    ]

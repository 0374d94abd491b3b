-- ===== src/Server/Endless.antt =====
-- Of server/signaling_worker.cpp: the loop of `_process_query_buffer`, which never ends once a
-- client has sent 65535 bytes more than its first body.
use web_rtcserver.Prelude.{
  ℕ, zero, suc, ◌+◌, ◌≤◌, ◌<◌, ◌==◌, ◌≡◌, ◌≢◌, refl, ap, ◌∙◌, Bool, true, List, none, some, inl,
  inr, Bool-cases, arith, length, take, drop, leb,
}
use native.Mathlib.Decide.{dec_lt}
use web_rtcserver.Server.Xhead.{xhead_size, xhead_magic_num, magic_num, body_len}
use web_rtcserver.Server.Messages.{RtcMsg, Json, cmdno_member, cmdno_push, cmdno_pull}
use web_rtcserver.Server.Requests.{
  state_head, state_body, TcpConnection, enter_body, end_body, reply_result, dispatch,
  process_request, process_query_buffer,
}
use web_rtcserver.Server.RequestSteps.{
  request_buffer, process_query_buffer_wait, process_query_buffer_head, process_query_buffer_body,
}

module _ (json : Json) (notified : RtcMsg → Bool) (self at : ℕ) where
  abbrev request_again : TcpConnection → List RtcMsg → TcpConnection × List RtcMsg × Bool
  request_again c sent =
      process_request json notified self at (take xhead_size c.querybuf)
        (take (body_len c.querybuf) (drop xhead_size c.querybuf)) c sent

  -- Commands other than push and pull are answered, and count as handled.
  dispatch_good :
      (header : List ℕ) (c : TcpConnection) (root : json.Value) (n : ℕ) (sent : List RtcMsg)
      → n ≢ cmdno_push
      → n ≢ cmdno_pull
      → (dispatch json notified self at header c root n sent).2 ≡ true
  unfolding dispatch reply_result
  dispatch_good header c root n sent h k = ground arith

  repeats :
      (n : ℕ) (c : TcpConnection) (sent : List RtcMsg)
      → c.current_state ≡ state_body
      → c.bytes_processed ≡ 65535
      → 65535 + c.bytes_expected ≤ length c.querybuf
      → ((d : TcpConnection) (all : List RtcMsg)
          → (process_request json notified self at
              (take xhead_size c.querybuf)
              (take (body_len c.querybuf) (drop xhead_size c.querybuf))
              d
              all).2
            ≡ true)
      → process_query_buffer json notified self at n c sent ≡ none
  unfolding process_query_buffer end_body
  repeats zero c sent state processed filled good = ground arith
  repeats (suc n) c sent state processed filled good =
      let t : leb (c.bytes_processed + c.bytes_expected) (length c.querybuf) ≡ true =
        ground arith in
      let same =
        request_buffer json notified self at (take xhead_size c.querybuf)
          (take (body_len c.querybuf) (drop xhead_size c.querybuf)) c sent in
      let r = request_again c sent in
      let buffer : r.0.querybuf ≡ c.querybuf = ap (λ d. d.querybuf) same in
      let expected : r.0.bytes_expected ≡ c.bytes_expected = ap (λ d. d.bytes_expected) same in
      simp (process_query_buffer, t, state, good c sent)
        (repeats n (end_body r.0) r.1 (ap (λ d. d.current_state) same ∙ state) refl
          (rw (buffer, expected) filled) (rw buffer good))

  -- Where the buffer of a connection that has had its request handled holds 65535 bytes and the
  -- body's length once more, and the request has a command number other than those of push and
  -- pull, the loop goes on after any number of rounds.
  pub process_query_buffer_endless :
      (n : ℕ) (c : TcpConnection) (sent : List RtcMsg) (root : json.Value) (cmdno : ℕ)
      → c.current_state ≡ state_body
      → c.bytes_processed ≡ 65535
      → 65535 + c.bytes_expected ≤ length c.querybuf
      → json.parse (take (body_len c.querybuf) (drop xhead_size c.querybuf)) ≡ some root
      → json.as_int root cmdno_member ≡ some cmdno
      → cmdno ≢ cmdno_push
      → cmdno ≢ cmdno_pull
      → process_query_buffer json notified self at n c sent ≡ none
  unfolding process_request
  process_query_buffer_endless n c sent root cmdno state processed filled e f h k =
      repeats n c sent state processed filled (λ d all.
        simp (process_request, e, f)
          (dispatch_good (take xhead_size c.querybuf) d root cmdno all h k))

  -- Two rounds of the loop are enough for a connection that waits for its header, while its buffer
  -- holds less than 65535 bytes and the body's length.
  pub process_query_buffer_ends :
      (c : TcpConnection) (sent : List RtcMsg)
      → c.current_state ≡ state_head
      → c.bytes_processed ≡ 0
      → c.bytes_expected ≡ xhead_size
      → length c.querybuf < 65535 + body_len c.querybuf
      → process_query_buffer json notified self at 2 c sent ≢ none
  unfolding process_query_buffer enter_body
  process_query_buffer_ends c sent state processed expected short ends =
      elim (dec_lt (length c.querybuf) xhead_size) [
        | yes less ↦
            ground
              (arith, ends, process_query_buffer_wait json notified self at 2 c sent (omega arith))
        | no more ↦ elim (Bool-cases (magic_num c.querybuf == xhead_magic_num)) [
          | inl is_magic ↦
              let magic : magic_num c.querybuf ≡ xhead_magic_num = ground arith in
              let entered =
                process_query_buffer_head json notified self at 1 c sent state (omega arith)
                  magic in
              elim (dec_lt (length c.querybuf) (xhead_size + body_len c.querybuf)) [
                | yes less ↦ ground (
                  arith,
                  ends,
                  entered,
                  process_query_buffer_wait json notified self at 1 (enter_body c) sent less,
                )
                | no enough ↦ ground (
                  arith,
                  ends,
                  entered,
                  process_query_buffer_body json notified self at 0 (enter_body c) sent refl
                      (omega arith) short,
                )
              ]
          | inr t ↦
              let u : leb (c.bytes_processed + c.bytes_expected) (length c.querybuf) ≡ true =
                ground arith in
              absurd (none_some (simp (process_query_buffer, u, state, t) at ends))
        ]
      ]
    where
      none_some : {A : Type 0} {a : A} → some a ≡ none → ⊥
      none_some e = ground arith

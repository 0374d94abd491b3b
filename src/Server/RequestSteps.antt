-- ===== src/Server/RequestSteps.antt =====
-- Of server/signaling_worker.cpp: what a request reads of its connection, and the rounds of the loop
-- over the buffer.
use web_rtcserver.Prelude.{
  ℕ, zero, suc, ◌+◌, ◌≤◌, ◌<◌, ◌≡◌, refl, ap, Bool, true, false, List, ◌++◌, Option, none, some,
  arith, length, length-drop, take, drop, leb, if◌then◌else◌, inl, inr, Option-cases, Bool-cases,
  take-append_le, drop-append_le,
}
use web_rtcserver.Server.Xhead.{xhead_size, xhead_magic_num, magic_num, body_len, body_len-append}
use web_rtcserver.Server.Messages.{RtcMsg, Json, cmdno_member}
use web_rtcserver.Server.Requests.{
  state_head, state_body, Reply, TcpConnection, add_reply, enter_body, end_body, process_push,
  process_pull, reply_result, return_result, dispatch, process_request, process_query_buffer,
}

-- What the client and the RTC server see of a connection: its replies, the messages, and whether it
-- is still open.
abbrev pub seen : TcpConnection × List RtcMsg × Bool → List Reply × List RtcMsg × Bool
seen (c, sent, ok) = (c.reply_list, sent, ok)

abbrev pub seen? :
    Option (TcpConnection × List RtcMsg × Bool) → Option (List Reply × List RtcMsg × Bool)
seen? none = none
seen? (some r) = some (seen r)

module _ (json : Json) (notified : RtcMsg → Bool) (self at : ℕ) where
  open json use {parse, as_int}

  -- A command is handled the same whatever the buffer holds behind it, and changes the replies only.
  seen-dispatch :
      (header : List ℕ) (c d : TcpConnection) (root : json.Value) (cmdno : ℕ) (sent : List RtcMsg)
      → c.fd ≡ d.fd
      → c.reply_list ≡ d.reply_list
      → seen (dispatch json notified self at header c root cmdno sent)
        ≡ seen (dispatch json notified self at header d root cmdno sent)
  unfolding dispatch reply_result return_result add_reply process_push process_pull
  seen-dispatch header c d root cmdno sent e f = ground arith

  dispatch_buffer :
      (header : List ℕ) (c : TcpConnection) (root : json.Value) (cmdno : ℕ) (sent : List RtcMsg)
      → (dispatch json notified self at header c root cmdno sent).0 ≡ record c {
        reply_list = (dispatch json notified self at header c root cmdno sent).0.reply_list;
      }
  unfolding dispatch reply_result return_result add_reply
  dispatch_buffer header c root cmdno sent = ground arith

  pub seen-process_request :
      (header body : List ℕ) (c d : TcpConnection) (sent : List RtcMsg)
      → c.fd ≡ d.fd
      → c.reply_list ≡ d.reply_list
      → seen (process_request json notified self at header body c sent)
        ≡ seen (process_request json notified self at header body d sent)
  unfolding process_request
  seen-process_request header body c d sent e f = elim (Option-cases (parse body)) [
    | inl none' ↦ rw (process_request, none') (ground arith)
    | inr (root, is_root) ↦ elim (Option-cases (as_int root cmdno_member)) [
      | inl none' ↦ rw (process_request, is_root, none') (ground arith)
      | inr (n, is_n) ↦
          rw (process_request, is_root, is_n) (seen-dispatch header c d root n sent e f)
    ]
  ]

  pub request_buffer :
      (header body : List ℕ) (c : TcpConnection) (sent : List RtcMsg)
      → (process_request json notified self at header body c sent).0 ≡ record c {
        reply_list = (process_request json notified self at header body c sent).0.reply_list;
      }
  unfolding process_request
  request_buffer header body c sent = elim (Option-cases (parse body)) [
    | inl none' ↦ rw (process_request, none') refl
    | inr (root, is_root) ↦ elim (Option-cases (as_int root cmdno_member)) [
      | inl none' ↦ rw (process_request, is_root, none') refl
      | inr (n, is_n) ↦ rw (process_request, is_root, is_n) (dispatch_buffer header c root n sent)
    ]
  ]

  -- The loop ends where bytes are missing.
  pub process_query_buffer_wait :
      (n : ℕ) (c : TcpConnection) (sent : List RtcMsg)
      → length c.querybuf < c.bytes_processed + c.bytes_expected
      → process_query_buffer json notified self at n c sent ≡ some (c, sent, true)
  unfolding process_query_buffer
  process_query_buffer_wait zero c sent h = ground arith
  process_query_buffer_wait (suc n) c sent h =
      let t : leb (c.bytes_processed + c.bytes_expected) (length c.querybuf) ≡ false =
        ground arith in
      rw (process_query_buffer, t) refl

  -- The request of a complete body.
  abbrev pub request_of : List ℕ → TcpConnection → List RtcMsg → TcpConnection × List RtcMsg × Bool
  request_of bytes c sent =
      process_request json notified self at (take xhead_size bytes)
        (take (body_len bytes) (drop xhead_size bytes)) c sent

  pub request_of-append :
      (q r : List ℕ) (c : TcpConnection) (sent : List RtcMsg)
      → xhead_size ≤ length q
      → xhead_size + body_len (q ++ r) ≤ length q
      → request_of (q ++ r) c sent ≡ request_of q c sent
  request_of-append q r c sent h k = rw (
    take-append_le xhead_size q r h,
    drop-append_le xhead_size q r h,
    body_len-append q r h,
    take-append_le (body_len q) (drop xhead_size q) r
        (omega (arith, length-drop xhead_size q, ap (λ n. n + 0) (body_len-append q r h))),
  )

  abbrev pub ended :
      TcpConnection × List RtcMsg × Bool → Option (TcpConnection × List RtcMsg × Bool)
  ended (c, sent, ok) = some (if ok then end_body c else c, sent, ok)

  pub process_query_buffer_body :
      (n : ℕ) (c : TcpConnection) (sent : List RtcMsg)
      → c.current_state ≡ state_body
      → c.bytes_processed + c.bytes_expected ≤ length c.querybuf
      → length c.querybuf < 65535 + c.bytes_expected
      → process_query_buffer json notified self at (suc n) c sent
        ≡ ended (request_of c.querybuf c sent)
  unfolding process_query_buffer
  process_query_buffer_body n c sent e low high =
      let t : leb (c.bytes_processed + c.bytes_expected) (length c.querybuf) ≡ true =
        ground arith in
      let same =
        request_buffer (take xhead_size c.querybuf)
          (take (body_len c.querybuf) (drop xhead_size c.querybuf)) c sent in
      elim (Bool-cases (request_of c.querybuf c sent).2) [
        | inl ok ↦
            simp (process_query_buffer, t, e, ok)
              (process_query_buffer_wait n (end_body (request_of c.querybuf c sent).0)
                (request_of c.querybuf c sent).1
                (rw (ap (λ d. d.querybuf) same, ap (λ d. d.bytes_expected) same) high))
        | inr bad ↦ simp (process_query_buffer, t, e, bad)
      ]

  -- The loop takes a header, and goes on.
  pub process_query_buffer_head :
      (n : ℕ) (c : TcpConnection) (sent : List RtcMsg)
      → c.current_state ≡ state_head
      → c.bytes_processed + c.bytes_expected ≤ length c.querybuf
      → magic_num c.querybuf ≡ xhead_magic_num
      → process_query_buffer json notified self at (suc n) c sent
        ≡ process_query_buffer json notified self at n (enter_body c) sent
  unfolding process_query_buffer
  process_query_buffer_head n c sent e low magic =
      let t : leb (c.bytes_processed + c.bytes_expected) (length c.querybuf) ≡ true =
        ground arith in
      simp (process_query_buffer, t, e, magic)

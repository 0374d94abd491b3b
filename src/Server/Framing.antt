-- ===== src/Server/Framing.antt =====
-- Of server/signaling_worker.cpp: however the bytes of a request are cut into reads, it is handled
-- once, with its own header and body.
use web_rtcserver.Prelude.{
  ℕ, ◌+◌, ◌≤◌, ◌<◌, ◌≡◌, refl, sym, ap, ◌∙◌, Bool, true, false, List, [], ◌∷◌, ◌++◌, Option, none,
  some, arith, length, length-append, take, drop, if◌then◌else◌, append_assoc, append-nil, inl, inr,
  Bool-cases,
}
use native.Mathlib.Decide.{dec_lt}
use web_rtcserver.Server.Xhead.{
  xhead_size, xhead_magic_num, magic_num, body_len, magic_num-append, body_len-append,
}
use web_rtcserver.Server.Messages.{RtcMsg, Json}
use web_rtcserver.Server.Requests.{
  state_head, state_body, TcpConnection, new_connection, enter_body, end_body, process_request,
  process_query_buffer,
}
use web_rtcserver.Server.RequestSteps.{
  seen, seen?, seen-process_request, request_buffer, process_query_buffer_wait, request_of-append,
  request_of, ended, process_query_buffer_body, process_query_buffer_head,
}

abbrev pub concat : List (List ℕ) → List ℕ
concat [] = []
concat (b ∷ bs) = b ++ concat bs

module _ (json : Json) (notified : RtcMsg → Bool) (self at : ℕ) where
  -- The reads of `_read_query` one after the other, until it closes the connection.
  unfoldable pub feed :
      List (List ℕ) → TcpConnection → List RtcMsg → Option (TcpConnection × List RtcMsg × Bool)
  unfolding process_query_buffer
  feed [] c sent = some (c, sent, true)
  feed (b ∷ bs) c sent =
      elim (process_query_buffer json notified self at 2 (record c { querybuf = c.querybuf ++ b })
        sent) [
          | none ↦ none
          | some (after, all, ok) ↦ if ok then feed bs after all else some (after, all, false)
        ]

  abbrev receive : List ℕ → TcpConnection → TcpConnection
  receive b c = record c { querybuf = c.querybuf ++ b }

  -- After the request nothing is handled, while the buffer is short of `65535 + bytes_expected`.
  feed_ended :
      (bs : List (List ℕ)) (c : TcpConnection) (sent : List RtcMsg)
      → length (c.querybuf ++ concat bs) < c.bytes_processed + c.bytes_expected
      → seen? (feed bs c sent) ≡ some (c.reply_list, sent, true)
  unfolding feed
  feed_ended [] c sent h = refl
  feed_ended (b ∷ bs) c sent h =
      let short : length (c.querybuf ++ b) < c.bytes_processed + c.bytes_expected = omega (
        arith,
        length-append c.querybuf (b ++ concat bs),
        length-append b (concat bs),
        length-append c.querybuf b,
      ) in
      simp (feed, process_query_buffer_wait json notified self at 2 (receive b c) sent short)
        (feed_ended bs (receive b c) sent (rw (append_assoc c.querybuf b (concat bs)) h))

  -- Some bytes that hold a request, and not too much behind it; the connection that is seen.
  module _ (bytes : List ℕ) (d : TcpConnection) (sent : List RtcMsg)
      (long : xhead_size + body_len bytes ≤ length bytes)
      (high : length bytes < 65535 + body_len bytes) where
    record IsReading (bs : List (List ℕ)) (c : TcpConnection) : Type 0 where
      same_fd : c.fd ≡ d.fd
      same_replies : c.reply_list ≡ d.reply_list
      whole : c.querybuf ++ concat bs ≡ bytes

    receive-IsReading :
        (b : List ℕ) (bs : List (List ℕ)) (c : TcpConnection)
        → IsReading (b ∷ bs) c
        → IsReading bs (receive b c)
    receive-IsReading b bs c h = record {
      same_fd = h.same_fd;
      same_replies = h.same_replies;
      whole = append_assoc c.querybuf b (concat bs) ∙ h.whole;
    }

    enter-IsReading :
        (bs : List (List ℕ)) (c : TcpConnection) → IsReading bs c → IsReading bs (enter_body c)
    unfolding enter_body
    enter-IsReading bs c h = record {
      same_fd = h.same_fd;
      same_replies = h.same_replies;
      whole = h.whole;
    }

    -- The read that completes the body handles the request; later reads change nothing.
    feed_complete :
        (bs : List (List ℕ)) (c : TcpConnection)
        → IsReading bs c
        → c.bytes_expected ≡ body_len bytes
        → xhead_size + c.bytes_expected ≤ length c.querybuf
        → seen?
            (elim (ended json notified self at
              (request_of json notified self at c.querybuf c sent)) [
                | none ↦ none
                | some (after, all, ok) ↦ if ok then feed bs after all else some (after, all, false)
              ])
          ≡ some (seen (request_of json notified self at bytes d sent))
    unfolding end_body
    feed_complete bs c h expected low =
        let r = request_of json notified self at c.querybuf c sent in
        let same =
          request_buffer json notified self at (take xhead_size c.querybuf)
            (take (body_len c.querybuf) (drop xhead_size c.querybuf)) c sent in
        let whole = h.whole in
        let in_bytes : r ≡ request_of json notified self at bytes c sent =
          sym (
            request_of-append json notified self at c.querybuf (concat bs) c sent (omega arith)
              (rw (whole, sym expected) low))
          ∙ ap (λ q. request_of json notified self at q c sent) whole in
        let end : seen r ≡ seen (request_of json notified self at bytes d sent) =
          ap seen in_bytes
          ∙ seen-process_request json notified self at (take xhead_size bytes)
              (take (body_len bytes) (drop xhead_size bytes)) c d sent h.same_fd h.same_replies in
        rw (sym end) (elim (Bool-cases r.2) [
          | inl ok ↦ simp (ok) (
              feed_ended bs (end_body r.0) r.1 (
                rw (ap (λ d. d.querybuf) same, ap (λ d. d.bytes_expected) same, whole, expected)
                  high))
          | inr bad ↦ simp (bad)
        ])

    -- The rest of a body.
    feed_body :
        (bs : List (List ℕ)) (c : TcpConnection)
        → IsReading bs c
        → c.current_state ≡ state_body
        → c.bytes_processed ≡ xhead_size
        → c.bytes_expected ≡ body_len bytes
        → length c.querybuf < xhead_size + c.bytes_expected
        → seen? (feed bs c sent) ≡ some (seen (request_of json notified self at bytes d sent))
    unfolding feed
    feed_body [] c h state processed expected short =
        absurd (omega (arith, ap length (append-nil c.querybuf), ap length h.whole))
    feed_body (b ∷ bs) c h state processed expected short =
        let h' = receive-IsReading b bs c h in
        let all : length c.querybuf + length b + length (concat bs) ≡ length bytes = omega (
          arith,
          length-append (c.querybuf ++ b) (concat bs),
          length-append c.querybuf b,
          ap length h'.whole,
        ) in
        elim (dec_lt (length (c.querybuf ++ b)) (xhead_size + c.bytes_expected)) [
          | yes less ↦
              simp
                (
                  feed,
                  process_query_buffer_wait json notified self at 2 (receive b c) sent
                      (omega arith),
                )
                (feed_body bs (receive b c) h' state processed expected less)
          | no more ↦
              simp
                (
                  feed,
                  process_query_buffer_body json notified self at 1 (receive b c) sent state
                      (omega arith) (omega (arith, length-append c.querybuf b)),
                )
                (feed_complete bs (receive b c) h' expected (omega arith))
        ]

    -- The rest of a header.
    feed_head :
        (bs : List (List ℕ)) (c : TcpConnection)
        → IsReading bs c
        → magic_num bytes ≡ xhead_magic_num
        → c.current_state ≡ state_head
        → c.bytes_processed ≡ 0
        → c.bytes_expected ≡ xhead_size
        → length c.querybuf < xhead_size
        → seen? (feed bs c sent) ≡ some (seen (request_of json notified self at bytes d sent))
    unfolding feed enter_body
    feed_head [] c h magic state processed expected short =
        absurd (omega (arith, ap length (append-nil c.querybuf), ap length h.whole))
    feed_head (b ∷ bs) c h magic state processed expected short =
        let h' = receive-IsReading b bs c h in
        let q = c.querybuf ++ b in
        elim (dec_lt (length q) xhead_size) [
          | yes less ↦
              simp
                (
                  feed,
                  process_query_buffer_wait json notified self at 2 (receive b c) sent
                      (omega arith),
                )
                (feed_head bs (receive b c) h' magic state processed expected less)
          | no more ↦
              let whole = h'.whole in
              let its_magic : magic_num q ≡ xhead_magic_num =
                sym (magic_num-append q (concat bs) (omega arith)) ∙ ap magic_num whole ∙ magic in
              let its_len : body_len q ≡ body_len bytes =
                sym (body_len-append q (concat bs) (omega arith)) ∙ ap body_len whole in
              let entered =
                process_query_buffer_head json notified self at 1 (receive b c) sent state
                  (omega arith) its_magic in
              elim (dec_lt (length q) (xhead_size + body_len q)) [
                | yes less ↦
                    simp
                      (
                        feed,
                        entered,
                        process_query_buffer_wait json notified self at 1 (enter_body (receive b c))
                            sent less,
                      )
                      (feed_body bs (enter_body (receive b c)) (enter-IsReading bs (receive b c) h')
                        refl refl its_len less)
                | no enough ↦
                    simp
                      (
                        feed,
                        entered,
                        process_query_buffer_body json notified self at 0 (enter_body (receive b c))
                            sent refl (omega arith)
                            (omega (arith, length-append q (concat bs), ap length whole, its_len)),
                      )
                      (feed_complete bs (enter_body (receive b c))
                        (enter-IsReading bs (receive b c) h') its_len (omega arith))
              ]
        ]

  -- However the bytes of a request, and of what a client sends behind it, are cut into reads: the
  -- replies, the messages to the RTC server and the closing are those of one `process_request`,
  -- with the first 36 bytes and the body that they announce; where the header has the magic number,
  -- the body is complete, and the buffer ends up shorter than 65535 bytes more than the body.
  pub feed-process_request :
      (chunks : List (List ℕ)) (fd : ℕ)
      → magic_num (concat chunks) ≡ xhead_magic_num
      → xhead_size + body_len (concat chunks) ≤ length (concat chunks)
      → length (concat chunks) < 65535 + body_len (concat chunks)
      → seen? (feed chunks (new_connection fd) [])
        ≡ some (
            seen (
              process_request json notified self at
                (take xhead_size (concat chunks))
                (take (body_len (concat chunks)) (drop xhead_size (concat chunks)))
                (new_connection fd)
                []))
  unfolding new_connection
  feed-process_request chunks fd magic long high =
      feed_head (concat chunks) (new_connection fd) [] long high chunks (new_connection fd)
        (record { same_fd = refl; same_replies = refl; whole = refl }) magic refl refl refl
        (omega arith)

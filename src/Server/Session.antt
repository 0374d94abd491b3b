-- ===== src/Server/Session.antt =====
-- A request of a client through the parts of the server: the signaling worker that reads it, the RTC
-- worker that holds the streams, and the answer on the connection.
use web_rtcserver.Prelude.{
  ℕ, ◌≡◌, ◌≢◌, refl, Bool, false, List, [], ◌∷◌, none, some, arith, get_elem?, ◌==◌, take,
  bytes_eq_refl, ==_refl,
}
use web_rtcserver.Prelude.Maps.{lookup, insert, lookup-insert}
use web_rtcserver.Prelude.Heap.{object_at, store}
use web_rtcserver.Server.Xhead.{xhead_size}
use web_rtcserver.Server.Messages.{
  RtcMsg, Json, int_field, string_field, err_no_member, err_msg_member, offer_member, success,
  cmdno_push, cmdno_pull, minus_one,
}
use web_rtcserver.Server.Requests.{TcpConnection, add_reply, make_reply, process_push}
use web_rtcserver.Server.Worker.{SignalingWorker, returns, is_negative, response_server_offer}
use web_rtcserver.Server.RtcWorker.{
  RtcWorker, to_bool, answer_msg, answer_result, worker_process_push, worker_process_pull,
  handle_msg,
}
use web_rtcserver.Stream.Manager.{
  Manager, Stream, AnswerType, find_push_stream, create_push_stream, create_pull_stream,
}

lookup-insert_self :
    {V : Type 0} (k : List ℕ) (v : V) (m : List (List ℕ × V)) → lookup k (insert k v m) ≡ some v
lookup-insert_self k v m = rw (lookup-insert k k v m, bytes_eq_refl k) refl

created :
    (msg : RtcMsg) (m : Manager)
    → (s : Stream) × (find_push_stream msg.stream_name
          (create_push_stream msg.uid msg.stream_name (to_bool msg.audio) (to_bool msg.video) m)
        ≡ some s)
      × (s.uid ≡ msg.uid)
unfolding create_push_stream find_push_stream
created msg m = (_, lookup-insert_self msg.stream_name _ _, refl)

module _ (get_source : Stream → Bool → List ℕ) (create_offer : Manager → List ℕ)
    (answer_type : List ℕ → AnswerType) where
  -- A request to play a stream that nobody publishes, answered: the worker's streams stay as they
  -- were, and the signaling worker is told -1, with an empty offer.
  pub handle_msg_unpublished :
      (msg : RtcMsg) (w : RtcWorker) (to : ℕ)
      → msg.cmdno ≡ cmdno_pull
      → msg.worker ≡ some to
      → find_push_stream msg.stream_name w.manager ≡ none
      → handle_msg get_source create_offer answer_type msg w
        ≡ record w { answered = (to, record msg { sdp = []; err_no = minus_one }) ∷ w.answered }
  unfolding handle_msg worker_process_pull create_pull_stream answer_result answer_msg
  handle_msg_unpublished msg w to e f g =
      simp (handle_msg, e, worker_process_pull, create_pull_stream, g, answer_result, answer_msg, f)

  -- What the push of a client is answered with.
  published :
      (msg : RtcMsg) (w : RtcWorker) (to : ℕ)
      → msg.cmdno ≡ cmdno_push
      → msg.worker ≡ some to
      → (m : Manager) × (handle_msg get_source create_offer answer_type msg w ≡ record w {
        manager = m;
        answered = (to, record msg { sdp = create_offer m; err_no = msg.err_no }) ∷ w.answered;
      })
        × ((s : Stream) × (find_push_stream msg.stream_name m ≡ some s) × (s.uid ≡ msg.uid))
  unfolding handle_msg worker_process_push answer_result answer_msg
  published msg w to e f =
      let m =
        create_push_stream msg.uid msg.stream_name (to_bool msg.audio) (to_bool msg.video)
          w.manager in
      (
        m,
        simp (handle_msg, e, worker_process_push, answer_result, answer_msg, f),
        created msg w.manager,
      )

  -- The message of a push request carries its connection.
  module _ (json : Json) (notified : RtcMsg → Bool) (self at : ℕ) where
    open json use {Value}

    pushed_msg :
        (c : TcpConnection) (root : Value) (log : ℕ) (msg : RtcMsg)
        → process_push json notified self at cmdno_push c root log ≡ some msg
        → (msg.cmdno ≡ cmdno_push)
          × (msg.worker ≡ some self)
          × (msg.conn ≡ some at)
          × (msg.msg_fd ≡ c.fd)
          × (msg.err_no ≡ 0)
    unfolding process_push
    pushed_msg c root log msg e = ground (arith, e)

    -- A push request whose members convert, handled by an RTC worker, while the table of the
    -- signaling worker still holds its connection, at a positive file descriptor: the stream is
    -- published under its name, for its user; and the answer that comes back puts one reply on that
    -- connection, with the first 36 bytes of its buffer as the header, and the offer.
    pub push_session :
        (c c' : TcpConnection) (root : Value) (log : ℕ) (msg : RtcMsg) (w : RtcWorker)
        (sw : SignalingWorker)
        → process_push json notified self at cmdno_push c root log ≡ some msg
        → is_negative c.fd ≡ false
        → c.fd ≢ 0
        → get_elem? sw.conns c.fd ≡ some (some at)
        → object_at at sw.heap ≡ some c'
        → let after = handle_msg get_source create_offer answer_type msg w in
          ((s : Stream) × (find_push_stream msg.stream_name after.manager ≡ some s)
            × (s.uid ≡ msg.uid))
          × ((answer : RtcMsg) × (after.answered ≡ (self, answer) ∷ w.answered)
              × (response_server_offer json notified self answer sw
                  ≡ returns (record sw {
                    heap =
                        store at
                          (add_reply
                            (make_reply json notified self at (take xhead_size c'.querybuf) (
                              (err_no_member, int_field 0)
                              ∷ (err_msg_member, string_field success)
                              ∷ (offer_member, string_field (create_offer after.manager))
                              ∷ []))
                            c')
                          sw.heap;
                  })))
    unfolding response_server_offer
    push_session c c' root log msg w sw e sign some_fd held there =
        let (is_push, is_worker, is_conn, is_fd, is_ok) = pushed_msg c root log msg e in
        let (m, is_after, is_published) = published msg w self is_push is_worker in
        let t : (c.fd == 0) ≡ false = ground arith in
        rw is_after (
          is_published,
          (
            record msg { sdp = create_offer m; err_no = msg.err_no },
            refl,
            simp (response_server_offer, is_conn, is_fd, is_ok, sign, t, held, there, ==_refl at),
          ),
        )

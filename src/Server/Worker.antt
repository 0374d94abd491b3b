-- ===== src/Server/Worker.antt =====
-- server/signaling_worker.cpp: the table of connections, reading, writing, and the notifications of
-- the other threads. A connection lives at an address until it is deleted.
use web_rtcserver.Prelude.{
  ℕ, ◌+◌, ◌-◌, ◌*◌, ◌^◌, ◌%◌, Bool, true, false, not, ◌||◌, List, [], ◌∷◌, ◌++◌, Option, none, some,
  length, take, drop, replicate, map, get_elem?, ltb, leb, ◌==◌, if◌then◌else◌,
}
use web_rtcserver.Prelude.Heap.{object_at, store, free, set_elem}
use web_rtcserver.Base.LockFreeQueue.{LockFreeQueue, consume, produce, new_queue}
use web_rtcserver.Server.Xhead.{xhead_size}
use web_rtcserver.Server.Messages.{
  RtcMsg, Json, int_field, string_field, err_no_member, err_msg_member, offer_member, cmdno_push,
  cmdno_pull, process_error, success,
}
use web_rtcserver.Server.Requests.{
  Reply, TcpConnection, new_connection, add_reply, make_reply, process_query_buffer,
}

pub record SignalingWorker : Type 0 where
  -- `_conns`, a vector of pointers, and what they point to.
  pub conns : List (Option ℕ)
  pub heap : List (ℕ × TcpConnection)
  pub q_conn : LockFreeQueue ℕ
  pub q_msg : List RtcMsg
  -- The messages pushed to the RTC server, and the bytes written with their file descriptor; a byte
  -- is `none` that lies outside of what was written to its buffer.
  pub sent : List RtcMsg
  pub wire : List (ℕ × List (Option ℕ))
  pub started : Bool
  pub stopped : Bool

unfoldable pub new_worker : SignalingWorker
unfolding new_queue
new_worker = record {
  conns = [];
  heap = [];
  q_conn = new_queue 0;
  q_msg = [];
  sent = [];
  wire = [];
  started = false;
  stopped = false;
}

-- How a handler ends: with a state, with undefined behaviour, or not within the results that the
-- socket gave.
pub data Outcome : Type 0 where
  returns : SignalingWorker → Outcome
  faults loops : Outcome

-- A negative `int`, which is its 32-bit word here.
abbrev pub is_negative : ℕ → Bool
is_negative n = leb (2 ^ 31) n

-- `_close_conn` and `_remove_conn`.
unfoldable pub close_conn : ℕ → TcpConnection → SignalingWorker → SignalingWorker
close_conn at c w = record w { conns = set_elem c.fd none w.conns; heap = free at w.heap }

-- `_conns.resize(n, nullptr)`.
unfoldable pub resize : ℕ → List (Option ℕ) → List (Option ℕ)
resize n conns = take n conns ++ replicate (n - length conns) none

-- `_conns[fd] = c`.
unfoldable pub put_conn : ℕ → ℕ → SignalingWorker → Outcome
put_conn fd at w =
    if ltb fd (length w.conns)
    then returns (record w { conns = set_elem fd (some at) w.conns })
    else faults

-- `_new_conn`, with a connection at `at`; a file descriptor is below 2^30, so that its double is an
-- `int`.
unfoldable pub new_conn : ℕ → ℕ → ℕ → SignalingWorker → Outcome
unfolding new_connection resize put_conn
new_conn at now fd w =
    if is_negative fd
    then returns w
    else let made = record (new_connection fd) { last_interaction = now } in
      let grown = if leb (length w.conns) fd then resize (fd * 2) w.conns else w.conns in
      put_conn fd at (record w { conns = grown; heap = store at made w.heap })

-- `_process_timeout`, on times that are 64-bit words.
unfoldable pub process_timeout : ℕ → ℕ → ℕ → SignalingWorker → Outcome
unfolding close_conn
process_timeout timeout at now w = elim (object_at at w.heap) [
  | none ↦ faults
  | some c ↦
      if leb timeout ((now + 2 ^ 64 - c.last_interaction) % 2 ^ 64)
      then returns (close_conn at c w)
      else returns w
]

-- The bytes of a slice.
unfoldable pub slice : Reply → List (Option ℕ)
slice reply = take reply.reply_size (map some reply.text ++ replicate reply.reply_size none)

pub data WriteEnd : Type 0 where
  emptied failed unfinished : WriteEnd

-- What a loop has written already goes before what its rest writes.
abbrev pub written_first :
    List (Option ℕ)
    → TcpConnection × List (Option ℕ) × WriteEnd
    → TcpConnection × List (Option ℕ) × WriteEnd
written_first bytes (c, out, end) = (c, bytes ++ out, end)

-- The loop of `_write_reply`, on the results of `sock_write_data` (`none` is -1): the connection
-- after them, the bytes written, and how it ended.
unfoldable pub write_loop :
    List (Option ℕ) → TcpConnection → TcpConnection × List (Option ℕ) × WriteEnd
unfolding slice
write_loop [] c = elim c.reply_list [ [] ↦ (c, [], emptied) | (reply ∷ rest) ↦ (c, [], unfinished) ]
write_loop (result ∷ results) c = elim c.reply_list [
  | [] ↦ (c, [], emptied)
  | (reply ∷ rest) ↦ elim result [
    | none ↦ (c, [], failed)
    | some n ↦
        if n == 0
        then write_loop results c
        else if leb reply.reply_size (n + c.cur_resp_pos)
        then written_first (take n (drop c.cur_resp_pos (slice reply)))
            (write_loop results (record c { reply_list = rest; cur_resp_pos = 0 }))
        else written_first (take n (drop c.cur_resp_pos (slice reply)))
            (write_loop results (record c { cur_resp_pos = c.cur_resp_pos + n }))
  ]
]

-- What follows the loop, or ends it.
unfoldable pub end_write :
    ℕ → ℕ → SignalingWorker → TcpConnection × List (Option ℕ) × WriteEnd → Outcome
unfolding close_conn
end_write at now w (c, out, emptied) = returns (record w {
  heap = store at (record c { last_interaction = now }) w.heap;
  wire = w.wire ++ (c.fd, out) ∷ [];
})
end_write at now w (c, out, failed) =
    returns (close_conn at c (record w { wire = w.wire ++ (c.fd, out) ∷ [] }))
end_write at now w (c, out, unfinished) = loops

-- `_write_reply`.
unfoldable pub write_reply : List (Option ℕ) → ℕ → ℕ → SignalingWorker → Outcome
unfolding write_loop end_write
write_reply results now fd w =
    if is_negative fd || fd == 0 then returns w else elim (get_elem? w.conns fd) [
      | none ↦ returns w
      | some none ↦ returns w
      | some (some at) ↦ elim (object_at at w.heap) [
        | none ↦ faults
        | some c ↦ end_write at now w (write_loop results c)
      ]
    ]

-- The worker at `self`, with its JSON library and the notification of the RTC server.
module _ (json : Json) (notified : RtcMsg → Bool) (self : ℕ) where
  -- The rounds of `process_query_buffer`: if two do not end it, none do.
  abbrev pub rounds : ℕ
  rounds = 2

  -- After the bytes of a read went into the buffer.
  unfoldable pub end_read :
      ℕ → SignalingWorker → Option (TcpConnection × List RtcMsg × Bool) → Outcome
  unfolding close_conn
  end_read at w none = loops
  end_read at w (some (c, sent, ok)) =
      if ok
      then returns (record w { heap = store at c w.heap; sent = sent })
      else returns (close_conn at c (record w { sent = sent }))

  -- `_read_query`; `read` is what `sock_read_data` gives, of any length, or `none`
  -- for -1; the source reads at most `bytes_expected` bytes at once.
  unfoldable pub read_query : Option (List ℕ) → ℕ → ℕ → SignalingWorker → Outcome
  unfolding process_query_buffer end_read close_conn
  read_query read now fd w = if is_negative fd then returns w else elim (get_elem? w.conns fd) [
    | none ↦ returns w
    | some none ↦ faults
    | some (some at) ↦ elim (object_at at w.heap) [
      | none ↦ faults
      | some c ↦ elim read [
        | none ↦ returns (close_conn at c w)
        | some bytes ↦ end_read at w (
            process_query_buffer json notified self at rounds
              (record c { last_interaction = now; querybuf = c.querybuf ++ bytes }) w.sent)
      ]
    ]
  ]

  -- `_response_server_offer`.
  unfoldable pub response_server_offer : RtcMsg → SignalingWorker → Outcome
  unfolding make_reply add_reply
  response_server_offer msg w = elim msg.conn [
    | none ↦ returns w
    | some at ↦
        if is_negative msg.msg_fd || msg.msg_fd == 0
        then returns w
        else elim (get_elem? w.conns msg.msg_fd) [
          | none ↦ returns w
          | some none ↦ returns w
          | some (some other) ↦
              if other == at
              then elim (object_at at w.heap) [
                | none ↦ faults
                | some c ↦
                    let failed = not (msg.err_no == 0) in
                    let reply = make_reply json notified self at (take xhead_size c.querybuf) (
                      (err_no_member, int_field msg.err_no)
                      ∷ (err_msg_member, string_field (if failed then process_error else success))
                      ∷ (offer_member, string_field (if failed then [] else msg.sdp))
                      ∷ []) in
                    returns (record w { heap = store at (add_reply reply c) w.heap })
              ]
              else returns w
        ]
  ]

  -- `_process_rtc_msg`, with its `pop_msg`.
  unfoldable pub process_rtc_msg : SignalingWorker → Outcome
  unfolding response_server_offer
  process_rtc_msg w = elim w.q_msg [
    | [] ↦ returns w
    | (msg ∷ rest) ↦
        if msg.cmdno == cmdno_push || msg.cmdno == cmdno_pull
        then response_server_offer msg (record w { q_msg = rest })
        else returns (record w { q_msg = rest })
  ]

  -- `push_msg`, from the thread of an RTC worker.
  unfoldable pub push_msg : RtcMsg → SignalingWorker → SignalingWorker
  push_msg msg w = record w { q_msg = w.q_msg ++ msg ∷ [] }

  -- `_q_conn.produce`, from the thread of the signaling server.
  unfoldable pub push_conn : ℕ → SignalingWorker → SignalingWorker
  unfolding produce
  push_conn fd w = record w { q_conn = produce fd w.q_conn }

  -- `_stop`, which needs the thread that `start` makes.
  unfoldable pub stop : SignalingWorker → SignalingWorker
  stop w = if w.started then record w { stopped = true } else w

  -- NEW_CONN, after the `consume`.
  unfoldable pub new_conn_of : ℕ → ℕ → LockFreeQueue ℕ × Option ℕ → SignalingWorker → Outcome
  unfolding new_conn
  new_conn_of at now (queue, none) w = returns (record w { q_conn = queue })
  new_conn_of at now (queue, some fd) w = new_conn at now fd (record w { q_conn = queue })

  -- `_process_notify`: QUIT, NEW_CONN and RTC_MSG; `at` is where a new connection is put.
  unfoldable pub process_notify : ℕ → ℕ → ℕ → SignalingWorker → Outcome
  unfolding stop consume new_conn_of process_rtc_msg
  process_notify at now msg w =
      if msg == 0
      then returns (stop w)
      else if msg == 1
      then new_conn_of at now (consume w.q_conn) w
      else if msg == 2
      then process_rtc_msg w
      else returns w

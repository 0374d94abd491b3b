-- ===== src/Tests/Servers.antt =====
-- The theorems on the signaling server at small inputs.
use web_rtcserver.Prelude.{
  ◌^◌, ℕ, ◌+◌, ◌≡◌, ◌<◌, ◌↔◌, refl, Bool, true, false, List, [], ◌∷◌, ◌++◌, Option, none, some,
  arith, length, length-replicate, zero, suc, ap, take, drop, replicate, get_elem?, max,
}
use mathlib.Core.Option.{some-injective}
use mathlib.Core.Path.{subst}
use web_rtcserver.Prelude.Heap.{object_at, store}
use web_rtcserver.Base.LockFreeQueue.{LockFreeQueue, IsLinked, new_queue, new_queue-IsLinked}
use web_rtcserver.Server.Xhead.{xhead_size, body_len, magic_num}
use web_rtcserver.Server.Messages.{
  RtcMsg, new_msg, Json, Member, cmdno_member, uid_member, stream_name_member, audio_member,
  video_member, answer_member, type_member, err_no_member, err_msg_member, offer_member, int_field,
  string_field, success, cmdno_push, max_res_buf,
}
use web_rtcserver.Server.Requests.{
  Reply, TcpConnection, new_connection, state_body, process_request, process_query_buffer,
  make_reply, add_reply, process_push,
}
use web_rtcserver.Server.Worker.{
  SignalingWorker, new_worker, returns, faults, new_conn, write_loop, emptied,
  response_server_offer,
}
use web_rtcserver.Server.Endless.{process_query_buffer_endless}
use web_rtcserver.Server.Replies.{unsent, write_loop-unsent, make_reply_overread}
use web_rtcserver.Server.Table.{IsTable, new_conn-faults}
use web_rtcserver.Server.Events.{Event, gets_conn, is_notified, run_worker}
use web_rtcserver.Server.Sound.{run_worker-IsTable}
use web_rtcserver.Server.RtcServer.{RtcServer}
use web_rtcserver.Server.Routing.{IsRouting, process_all, routed, Delivers, process_all-routed}
use web_rtcserver.Server.RtcWorker.{RtcWorker, handle_msg}
use web_rtcserver.Server.Session.{push_session}
use web_rtcserver.Stream.Manager.{
  Manager, Stream, AnswerType, push_answer, new_manager, find_push_stream,
}
use web_rtcserver.Tests.Plain.{plain}
use web_rtcserver.Server.RequestSteps.{seen, seen?}
use web_rtcserver.Server.Framing.{concat, feed, feed-process_request}

-- A JSON library that takes a body for its command number; each text is "s".
abbrev a_number : ℕ → Member → Option ℕ
a_number v cmdno_member = some v
a_number v uid_member = some 7
a_number v stream_name_member = none
a_number v audio_member = some 1
a_number v video_member = some 1
a_number v answer_member = none
a_number v type_member = none
a_number v err_no_member = none
a_number v err_msg_member = none
a_number v offer_member = none

abbrev first_byte : List ℕ → Option ℕ
first_byte [] = none
first_byte (x ∷ xs) = some x

abbrev plain_json : Json
plain_json = record {
  Value = ℕ;
  parse = first_byte;
  as_int = a_number;
  as_uint64 = a_number;
  as_string = λ v m. some (b's' ∷ []);
  write_string = λ fields. b'{' ∷ b'}' ∷ [];
}

abbrev always : RtcMsg → Bool
always msg = true

-- A header with the magic number, for a body of two bytes.
abbrev a_header : List ℕ
a_header = replicate 24 0 ++ (7 ∷ 37 ∷ 32 ∷ 251 ∷ 0 ∷ 0 ∷ 0 ∷ 0 ∷ 2 ∷ 0 ∷ 0 ∷ 0 ∷ [])

-- Three reads of it, the second of which ends in the body.
abbrev some_chunks : List (List ℕ)
some_chunks = take 10 a_header ∷ (drop 10 a_header ++ 4 ∷ []) ∷ (0 ∷ 9 ∷ []) ∷ []

is_magic : magic_num (concat some_chunks) ≡ 4213187847
unfolding magic_num
is_magic = refl

is_len : body_len (concat some_chunks) ≡ 2
unfolding body_len
is_len = refl

feed-process_request_example :
    seen? (feed plain_json always 0 0 some_chunks (new_connection 5) [])
    ≡ some (
        seen (
          process_request plain_json always 0 0
            (take 36 (concat some_chunks))
            (take (body_len (concat some_chunks)) (drop 36 (concat some_chunks)))
            (new_connection 5)
            []))
feed-process_request_example =
    feed-process_request plain_json always 0 0 some_chunks 5 is_magic (omega (arith, is_len))
      (omega (arith, is_len))

-- More bytes than the loop ever ends on.
unfoldable filler : List ℕ
filler = replicate 65600 0

length-filler : length filler ≡ 65600
unfolding filler
length-filler = length-replicate {A = ℕ} 65600 0

abbrev a_full_conn : TcpConnection
a_full_conn = record (new_connection 5) {
  querybuf = a_header ++ 9 ∷ 0 ∷ [] ++ filler;
  current_state = state_body;
  bytes_expected = 2;
  bytes_processed = 65535;
}

full_body : take (body_len a_full_conn.querybuf) (drop 36 a_full_conn.querybuf) ≡ 9 ∷ 0 ∷ []
unfolding body_len
full_body = refl

process_query_buffer_endless_example :
    process_query_buffer plain_json always 0 0 1000 a_full_conn [] ≡ none
process_query_buffer_endless_example =
    process_query_buffer_endless plain_json always 0 0 1000 a_full_conn [] 9 9 refl refl
      (omega (arith, length-filler)) (ap first_byte full_body) refl (λ e. omega arith)
      (λ e. omega arith)

-- A reply of three bytes, one of which is written already, and another one.
abbrev a_reply : Reply
a_reply = record { text = 1 ∷ 2 ∷ 3 ∷ []; reply_size = 3 }

abbrev a_writing_conn : TcpConnection
a_writing_conn = record (new_connection 5) { reply_list = a_reply ∷ a_reply ∷ []; cur_resp_pos = 1 }

write_loop-unsent_example :
    let end = write_loop (some 1 ∷ some 0 ∷ some 5 ∷ some 2 ∷ []) a_writing_conn in
    (end.1 ++ unsent end.0 ≡ unsent a_writing_conn) × (end.2 ≡ emptied → unsent end.0 ≡ [])
write_loop-unsent_example =
    write_loop-unsent (some 1 ∷ some 0 ∷ some 5 ∷ some 2 ∷ []) a_writing_conn

abbrev a_header_reply : Reply
a_header_reply = make_reply plain_json always 0 0 a_header []

make_reply_overread_example :
    (length a_header_reply.text < a_header_reply.reply_size)
    ↔ ((max_res_buf < 2) × (xhead_size + 2 < 2 ^ 32))
make_reply_overread_example = make_reply_overread plain_json always 0 0 a_header [] refl

new_conn-faults_example :
    (new_conn 1 0 5 new_worker ≡ faults) ↔ ((◌≡◌ {A = ℕ} 5 0) × (new_worker.conns ≡ []))
new_conn-faults_example = new_conn-faults 1 0 5 new_worker refl

-- An allocator that gives one more than the largest address in use.
abbrev largest : List (ℕ × TcpConnection) → ℕ
largest [] = 0
largest ((a, c) ∷ heap) = max a (largest heap)

abbrev next_malloc : List (ℕ × TcpConnection) → ℕ
next_malloc heap = largest heap + 1

above_largest :
    (a : ℕ) (heap : List (ℕ × TcpConnection)) → largest heap < a → object_at a heap ≡ none
above_largest a [] h = refl
above_largest a ((b, c) ∷ heap) h = ground (arith, above_largest a heap)

-- A connection of the file descriptor 5 arrives.
abbrev some_events : List Event
some_events = gets_conn 5 ∷ is_notified 1 0 ∷ []

abbrev a_worker : SignalingWorker
a_worker = record {
  conns = none ∷ none ∷ none ∷ none ∷ none ∷ some 1 ∷ none ∷ none ∷ none ∷ none ∷ [];
  heap = (1, new_connection 5) ∷ [];
  q_conn = record { nodes = 0 ∷ 5 ∷ []; divider = 1; last = 1; count = 0 };
  q_msg = [];
  sent = [];
  wire = [];
  started = false;
  stopped = false;
}

arrives : run_worker plain_json always 0 1000 next_malloc some_events new_worker ≡ returns a_worker
unfolding run_worker new_worker new_connection
arrives = refl

run_worker-IsTable_example : IsTable a_worker
run_worker-IsTable_example =
    run_worker-IsTable plain_json always 0 1000 next_malloc
      (λ heap. above_largest (next_malloc heap) heap (omega arith)) some_events a_worker arrives

-- Two workers, and a message for one of them.
abbrev a_msg : RtcMsg
a_msg = record new_msg { cmdno = cmdno_push; uid = 7; stream_name = b's' ∷ [] }

abbrev a_server : RtcServer
a_server = record {
  q_msg = a_msg ∷ [];
  certificate = some 1;
  worker_num = 2;
  workers = new_queue new_msg ∷ new_queue new_msg ∷ [];
}

a_server-IsRouting : IsRouting plain (λ at. false) none a_server
a_server-IsRouting = record {
  some_worker = omega arith;
  all_workers = refl;
  linked = linked;
  certified = (1, refl, refl);
}
  where
    linked : (i : ℕ) (q : LockFreeQueue RtcMsg) → get_elem? a_server.workers i ≡ some q → IsLinked q
    linked zero q e = subst IsLinked (some-injective _ _ e) (new_queue-IsLinked new_msg)
    linked (suc zero) q e = subst IsLinked (some-injective _ _ e) (new_queue-IsLinked new_msg)
    linked (suc (suc i)) q e = ground (arith, e)

process_all-routed_example :
    Delivers plain
      (λ at. false)
      none
      (process_all plain (λ at. false) none 1 a_server)
      1
      (new_queue new_msg)
      (routed plain (λ at. false) none 2 (some 1) 1 (a_msg ∷ []))
process_all-routed_example =
    process_all-routed plain (λ at. false) none (a_msg ∷ []) a_server 1 (new_queue new_msg)
      a_server-IsRouting refl refl

-- A push request on the connection of `a_worker`, answered by an RTC worker with no streams.
abbrev an_rtc_worker : RtcWorker
an_rtc_worker = record { manager = new_manager; worker_q_msg = new_queue new_msg; answered = [] }

abbrev no_source : Stream → Bool → List ℕ
no_source s is_audio = []

abbrev no_offer : Manager → List ℕ
no_offer m = b'o' ∷ []

abbrev push_type : List ℕ → AnswerType
push_type text = push_answer

abbrev a_push : RtcMsg
a_push = record new_msg {
  cmdno = cmdno_push;
  stream_name = b's' ∷ [];
  uid = 7;
  audio = 1;
  video = 1;
  worker = some 0;
  conn = some 1;
  msg_fd = 5;
}

pushes : process_push plain_json always 0 1 cmdno_push (new_connection 5) 1 0 ≡ some a_push
unfolding process_push new_connection
pushes = refl

push_session_example :
    let after = handle_msg no_source no_offer push_type a_push an_rtc_worker in
    ((s : Stream) × (find_push_stream (b's' ∷ []) after.manager ≡ some s) × (s.uid ≡ 7))
    × ((answer : RtcMsg) × (after.answered ≡ (0, answer) ∷ [])
        × (response_server_offer plain_json always 0 answer a_worker
            ≡ returns (record a_worker {
              heap =
                  store 1
                    (add_reply
                      (make_reply plain_json always 0 1
                        (take xhead_size (new_connection 5).querybuf)
                        ((err_no_member, int_field 0)
                          ∷ (err_msg_member, string_field success)
                          ∷ (offer_member, string_field (no_offer after.manager))
                          ∷ []))
                      (new_connection 5))
                    a_worker.heap;
            })))
unfolding new_connection
push_session_example =
    push_session no_source no_offer push_type plain_json always 0 1 (new_connection 5)
      (new_connection 5) 1 0 a_push an_rtc_worker a_worker pushes refl (λ e. omega arith) refl refl

-- ===== src/Server/Requests.antt =====
-- server/tcp_connection.h, and of server/signaling_worker.cpp the part that turns the bytes of a
-- connection into requests, and requests into messages and replies.
use web_rtcserver.Prelude.{
  ℕ, zero, suc, ◌+◌, ◌-◌, ◌^◌, ◌%◌, Bool, true, false, List, [], ◌∷◌, ◌++◌, Option, none, some,
  length, take, drop, leb, ◌==◌, if◌then◌else◌, ◌>>=◌,
}
use web_rtcserver.Server.Xhead.{
  xhead_size, xhead_magic_num, log_id, magic_num, body_len, set_body_len,
}
use web_rtcserver.Server.Messages.{
  RtcMsg, new_msg, Json, int_field, string_field, cmdno_member, uid_member, stream_name_member,
  audio_member, video_member, answer_member, type_member, err_no_member, err_msg_member, cmdno_push,
  cmdno_pull, cmdno_answer, cmdno_stop_push, cmdno_stoppull, max_res_buf, minus_one, process_error,
  success, JsonField, Member,
}

pub data ReadState : Type 0 where
  state_head state_body : ReadState

-- A slice of a reply: what was written to its buffer, and the size that the slice claims.
pub record Reply : Type 0 where
  pub text : List ℕ
  pub reply_size : ℕ

pub record TcpConnection : Type 0 where
  pub fd : ℕ
  pub querybuf : List ℕ
  pub current_state : ReadState
  pub bytes_expected : ℕ
  pub bytes_processed : ℕ
  pub last_interaction : ℕ
  pub reply_list : List Reply
  pub cur_resp_pos : ℕ

unfoldable pub new_connection : ℕ → TcpConnection
new_connection fd = record {
  fd = fd;
  querybuf = [];
  current_state = state_head;
  bytes_expected = xhead_size;
  bytes_processed = 0;
  last_interaction = 0;
  reply_list = [];
  cur_resp_pos = 0;
}

-- `c->reply_list.push_back(reply)` of `_add_reply`.
unfoldable pub add_reply : Reply → TcpConnection → TcpConnection
add_reply reply c = record c { reply_list = c.reply_list ++ reply ∷ [] }

-- The header is there: the body is awaited.
unfoldable pub enter_body : TcpConnection → TcpConnection
unfolding body_len
enter_body c = record c {
  current_state = state_body;
  bytes_processed = xhead_size;
  bytes_expected = body_len c.querybuf;
}

-- The request was handled; the state stays, and this many bytes are meant never to arrive.
unfoldable pub end_body : TcpConnection → TcpConnection
end_body c = record c { bytes_processed = 65535 }

-- The worker at `self`, the connection at `at`; `notified` tells whether the write to the pipe of
-- the RTC server succeeds for a message.
module _ (json : Json) (notified : RtcMsg → Bool) (self at : ℕ) where
  open json use {Value, parse, as_int, as_uint64, as_string, write_string}

  -- The response buffer holds the header and `max_res_buf` bytes, the last of which `snprintf`
  -- keeps for a 0; the slice is as long as the header and the text, a sum of 32 bits.
  unfoldable pub make_reply : List ℕ → List (Member × JsonField) → Reply
  unfolding set_body_len
  make_reply header fields =
      let json_data = write_string fields in
      record {
        text =
            set_body_len (length json_data % 2 ^ 32) (take xhead_size header)
            ++ take (max_res_buf - 1) json_data
            ++ 0 ∷ [];
        reply_size = (xhead_size + length json_data % 2 ^ 32) % 2 ^ 32;
      }

  -- `none` is the -1 of a member that does not convert.
  unfoldable pub process_push : ℕ → TcpConnection → Value → ℕ → Option RtcMsg
  process_push cmdno c root log = do
    uid ← as_uint64 root uid_member
    stream_name ← as_string root stream_name_member
    audio ← as_int root audio_member
    video ← as_int root video_member
    some (record new_msg {
      cmdno = cmdno;
      stream_name = stream_name;
      uid = uid;
      audio = audio;
      video = video;
      msg_log_id = log;
      worker = some self;
      conn = some at;
      msg_fd = c.fd;
    })

  unfoldable pub process_pull : ℕ → TcpConnection → Value → ℕ → Option RtcMsg
  process_pull cmdno c root log = do
    uid ← as_uint64 root uid_member
    stream_name ← as_string root stream_name_member
    audio ← as_int root audio_member
    video ← as_int root video_member
    some (record new_msg {
      cmdno = cmdno;
      stream_name = stream_name;
      uid = uid;
      audio = audio;
      video = video;
      msg_log_id = log;
      worker = some self;
      conn = some at;
      msg_fd = c.fd;
    })

  unfoldable pub process_stop_push : ℕ → Value → ℕ → Option RtcMsg
  process_stop_push cmdno root log = do
    uid ← as_uint64 root uid_member
    stream_name ← as_string root stream_name_member
    some (record new_msg { cmdno = cmdno; uid = uid; stream_name = stream_name; msg_log_id = log })

  unfoldable pub process_stop_pull : ℕ → Value → ℕ → Option RtcMsg
  process_stop_pull cmdno root log = do
    uid ← as_uint64 root uid_member
    stream_name ← as_string root stream_name_member
    some (record new_msg { cmdno = cmdno; uid = uid; stream_name = stream_name; msg_log_id = log })

  unfoldable pub process_answer : ℕ → Value → ℕ → Option RtcMsg
  process_answer cmdno root log = do
    uid ← as_uint64 root uid_member
    stream_name ← as_string root stream_name_member
    answer ← as_string root answer_member
    stream_type ← as_string root type_member
    some (record new_msg {
      cmdno = cmdno;
      uid = uid;
      stream_name = stream_name;
      sdp = answer;
      stream_type = stream_type;
      msg_log_id = log;
    })

  -- `return g_rtc_server->send_rtc_msg(msg)`: the message is pushed whatever the notification does;
  -- the Boolean is the result 0.
  unfoldable pub send_to_server : Option RtcMsg → List RtcMsg → List RtcMsg × Bool
  send_to_server none sent = (sent, false)
  send_to_server (some msg) sent = (sent ++ msg ∷ [], notified msg)

  -- The end of `_process_request`: the result of the command is returned to the client.
  unfoldable pub reply_result :
      List ℕ → TcpConnection → List RtcMsg × Bool → TcpConnection × List RtcMsg × Bool
  unfolding make_reply add_reply
  reply_result header c (sent, ok) =
      let err_no = if ok then 0 else minus_one in
      let err_msg = if ok then success else process_error in
      let reply =
        make_reply header
          ((err_no_member, int_field err_no) ∷ (err_msg_member, string_field err_msg) ∷ []) in
      (add_reply reply c, sent, true)

  -- `return` from the switch, for the two commands that the client waits on.
  unfoldable pub return_result :
      TcpConnection → List RtcMsg × Bool → TcpConnection × List RtcMsg × Bool
  return_result c (sent, ok) = (c, sent, ok)

  -- The switch on the command number.
  unfoldable pub dispatch :
      List ℕ → TcpConnection → Value → ℕ → List RtcMsg → TcpConnection × List RtcMsg × Bool
  unfolding process_push process_pull process_stop_push process_stop_pull process_answer
      send_to_server reply_result return_result log_id
  dispatch header c root cmdno sent =
      let log = log_id header in
      if cmdno == cmdno_push
      then return_result c (send_to_server (process_push cmdno c root log) sent)
      else if cmdno == cmdno_pull
      then return_result c (send_to_server (process_pull cmdno c root log) sent)
      else if cmdno == cmdno_stop_push
      then reply_result header c (send_to_server (process_stop_push cmdno root log) sent)
      else if cmdno == cmdno_stoppull
      then reply_result header c (send_to_server (process_stop_pull cmdno root log) sent)
      else if cmdno == cmdno_answer
      then reply_result header c (send_to_server (process_answer cmdno root log) sent)
      else reply_result header c (sent, false)

  -- `_process_request`; the Boolean is the result 0.
  unfoldable pub process_request :
      List ℕ → List ℕ → TcpConnection → List RtcMsg → TcpConnection × List RtcMsg × Bool
  unfolding dispatch
  process_request header body c sent = elim (parse body) [
    | none ↦ (c, sent, false)
    | some root ↦ elim (as_int root cmdno_member) [
      | none ↦ (c, sent, false)
      | some cmdno ↦ dispatch header c root cmdno sent
    ]
  ]

  -- The loop of `_process_query_buffer`, at most so many rounds of it: `none` if it goes on after
  -- them; the Boolean is the result 0.
  unfoldable pub process_query_buffer :
      ℕ → TcpConnection → List RtcMsg → Option (TcpConnection × List RtcMsg × Bool)
  unfolding process_request magic_num body_len enter_body end_body
  process_query_buffer zero c sent =
      if leb (c.bytes_processed + c.bytes_expected) (length c.querybuf)
      then none
      else some (c, sent, true)
  process_query_buffer (suc n) c sent =
      if leb (c.bytes_processed + c.bytes_expected) (length c.querybuf)
      then elim c.current_state [
        | state_head ↦
            if magic_num c.querybuf == xhead_magic_num
            then process_query_buffer n (enter_body c) sent
            else some (c, sent, false)
        | state_body ↦
            let (after, all, ok) =
              process_request (take xhead_size c.querybuf)
                (take (body_len c.querybuf) (drop xhead_size c.querybuf)) c sent in
            if ok then process_query_buffer n (end_body after) all else some (after, all, false)
      ]
      else some (c, sent, true)

-- ===== src/Server/Messages.antt =====
-- server/xrtcserver_def.h, and the calls of the JSON library (a parameter).
use web_rtcserver.Prelude.{ℕ, ◌-◌, ◌^◌, List, [], ◌∷◌, Option, none}

-- An `int` is its 32-bit word.
abbrev pub minus_one : ℕ
minus_one = 2 ^ 32 - 1

abbrev pub cmdno_push : ℕ
cmdno_push = 1

abbrev pub cmdno_pull : ℕ
cmdno_pull = 2

abbrev pub cmdno_answer : ℕ
cmdno_answer = 3

abbrev pub cmdno_stop_push : ℕ
cmdno_stop_push = 4

abbrev pub cmdno_stoppull : ℕ
cmdno_stoppull = 5

abbrev pub max_res_buf : ℕ
max_res_buf = 4096

-- The pointers `worker`, `conn` and `certificate` are addresses, `none` for null.
pub record RtcMsg : Type 0 where
  pub cmdno : ℕ
  pub uid : ℕ
  pub stream_name : List ℕ
  pub stream_type : List ℕ
  pub audio : ℕ
  pub video : ℕ
  pub msg_log_id : ℕ
  pub worker : Option ℕ
  pub conn : Option ℕ
  pub msg_fd : ℕ
  pub sdp : List ℕ
  pub err_no : ℕ
  pub certificate : Option ℕ

-- `std::make_shared<RtcMsg>()`.
abbrev pub new_msg : RtcMsg
new_msg = record {
  cmdno = minus_one;
  uid = 0;
  stream_name = [];
  stream_type = [];
  audio = 0;
  video = 0;
  msg_log_id = 0;
  worker = none;
  conn = none;
  msg_fd = minus_one;
  sdp = [];
  err_no = 0;
  certificate = none;
}

-- The names of the members of requests and responses.
pub data Member : Type 0 where
  cmdno_member uid_member stream_name_member audio_member video_member : Member
  answer_member type_member err_no_member err_msg_member offer_member : Member

-- "process error" and "success".
abbrev pub process_error : List ℕ
process_error =
    b'p' ∷ b'r' ∷ b'o' ∷ b'c' ∷ b'e' ∷ b's' ∷ b's' ∷ b' ' ∷ b'e' ∷ b'r' ∷ b'r' ∷ b'o' ∷ b'r' ∷ []

abbrev pub success : List ℕ
success = b's' ∷ b'u' ∷ b'c' ∷ b'c' ∷ b'e' ∷ b's' ∷ b's' ∷ []

-- The value of a member of the object that a response is.
pub data JsonField : Type 0 where
  int_field : ℕ → JsonField
  string_field : List ℕ → JsonField

-- What the server uses of the JSON library: `parse` is `none` where the reader reports an error,
-- the conversions of a member are `none` where they throw.
pub record Json : Type 1 where
  pub Value : Type 0
  pub parse : List ℕ → Option Value
  pub as_int : Value → Member → Option ℕ
  pub as_uint64 : Value → Member → Option ℕ
  pub as_string : Value → Member → Option (List ℕ)
  pub write_string : List (Member × JsonField) → List ℕ

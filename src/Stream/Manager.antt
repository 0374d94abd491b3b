-- ===== src/Stream/Manager.antt =====
-- stream/rtc_stream_manager.cpp: the streams by name, and what the callbacks of a stream do.
-- A stream is created by `new` at an address and freed by `delete`; `alive` says which stream, of
-- which kind and name, lives at an address. The peer connection of a stream is not modelled here:
-- what it would be sent is recorded in order, newest first.
use web_rtcserver.Prelude.{
  ℕ, ◌+◌, Bool, true, false, List, [], ◌∷◌, Option, none, some, ◌==◌, if◌then◌else◌,
}
use web_rtcserver.Prelude.Maps.{lookup, insert, erase}
use web_rtcserver.Pc.TransportController.{PeerConnectionState}

-- `RtcStreamType`.
pub data StreamType : Type 0 where
  k_push k_pull : StreamType

-- A `PushStream` or `PullStream`, with the sources that a pull stream was given.
pub record Stream : Type 0 where
  pub addr : ℕ
  pub stream_type : StreamType
  pub uid : ℕ
  pub stream_name : List ℕ
  pub audio : Bool
  pub video : Bool
  pub audio_source : List ℕ
  pub video_source : List ℕ

-- What goes to the peer connection of the stream at an address.
pub data Effect : Type 0 where
  started offered : ℕ → Effect
  rtp rtcp answer : ℕ → List ℕ → Effect

pub record Manager : Type 0 where
  pub push_streams : List (List ℕ × Stream)
  pub pull_streams : List (List ℕ × Stream)
  pub alive : ℕ → Option (StreamType × List ℕ)
  pub next_addr : ℕ
  pub effects : List Effect

unfoldable pub set_alive :
    ℕ
    → Option (StreamType × List ℕ)
    → (ℕ → Option (StreamType × List ℕ))
    → ℕ
    → Option (StreamType × List ℕ)
set_alive a o alive b = if a == b then o else alive b

-- `delete stream`.
unfoldable pub delete_stream : Stream → Manager → Manager
delete_stream s m = record m { alive = set_alive s.addr none m.alive }

-- `new`, at an address of its own.
unfoldable pub new_stream : Stream → Manager → Manager
new_stream s m = record m {
  alive = set_alive m.next_addr (some (s.stream_type, s.stream_name)) m.alive;
  next_addr = m.next_addr + 1;
}

unfoldable pub find_push_stream : List ℕ → Manager → Option Stream
find_push_stream name m = lookup name m.push_streams

unfoldable pub find_pull_stream : List ℕ → Manager → Option Stream
find_pull_stream name m = lookup name m.pull_streams

unfoldable pub remove_push_stream : ℕ → List ℕ → Manager → Manager
unfolding find_push_stream delete_stream
remove_push_stream uid name m = elim (find_push_stream name m) [
  | none ↦ m
  | some s ↦
      if uid == s.uid
      then delete_stream s (record m { push_streams = erase name m.push_streams })
      else m
]

unfoldable pub remove_pull_stream : ℕ → List ℕ → Manager → Manager
unfolding find_pull_stream delete_stream
remove_pull_stream uid name m = elim (find_pull_stream name m) [
  | none ↦ m
  | some s ↦
      if uid == s.uid
      then delete_stream s (record m { pull_streams = erase name m.pull_streams })
      else m
]

-- The kind that `set_answer` is told, "push", "pull" or another text.
pub data AnswerType : Type 0 where
  push_answer pull_answer other_answer : AnswerType

-- The checks and the call of `set_remote_sdp` that both branches of `set_answer` make; the result
-- is 0 (`true`) or -1.
unfoldable pub answer_stream : ℕ → List ℕ → Option Stream → Manager → Manager × Bool
answer_stream uid sdp none m = (m, false)
answer_stream uid sdp (some s) m =
    if uid == s.uid
    then (record m { effects = answer s.addr sdp ∷ m.effects }, true)
    else (m, false)

unfoldable pub set_answer : ℕ → List ℕ → List ℕ → AnswerType → Manager → Manager × Bool
unfolding answer_stream find_push_stream find_pull_stream
set_answer uid name sdp push_answer m = answer_stream uid sdp (find_push_stream name m) m
set_answer uid name sdp pull_answer m = answer_stream uid sdp (find_pull_stream name m) m
set_answer uid name sdp other_answer m = (m, true)

unfoldable pub stop_push : ℕ → List ℕ → Manager → Manager
unfolding remove_push_stream
stop_push uid name m = remove_push_stream uid name m

unfoldable pub stop_pull : ℕ → List ℕ → Manager → Manager
unfolding remove_pull_stream
stop_pull uid name m = remove_pull_stream uid name m

-- `create_push_stream`: a stream of that name gives way, whoever owns it.
unfoldable pub create_push_stream : ℕ → List ℕ → Bool → Bool → Manager → Manager
unfolding find_push_stream delete_stream new_stream
create_push_stream uid name audio video m =
    let cleared : Manager = elim (find_push_stream name m) [
      | none ↦ m
      | some old ↦ delete_stream old (record m { push_streams = erase name m.push_streams })
    ] in
    let s : Stream = record {
      addr = cleared.next_addr;
      stream_type = k_push;
      uid = uid;
      stream_name = name;
      audio = audio;
      video = video;
      audio_source = [];
      video_source = [];
    } in
    let made = new_stream s cleared in
    record made {
      push_streams = insert name s made.push_streams;
      effects = offered s.addr ∷ started s.addr ∷ made.effects;
    }

-- `create_pull_stream`; `get_source` is what the publisher's remote description holds for a mid
-- (`true` is audio). The result is 0 (`true`) or -1.
unfoldable pub create_pull_stream :
    (Stream → Bool → List ℕ) → ℕ → List ℕ → Bool → Bool → Manager → Manager × Bool
unfolding find_push_stream remove_pull_stream new_stream
create_pull_stream get_source uid name audio video m = elim (find_push_stream name m) [
  | none ↦ (m, false)
  | some publisher ↦
      let cleared = remove_pull_stream uid name m in
      let s : Stream = record {
        addr = cleared.next_addr;
        stream_type = k_pull;
        uid = uid;
        stream_name = name;
        audio = audio;
        video = video;
        audio_source = get_source publisher true;
        video_source = get_source publisher false;
      } in
      let made = new_stream s cleared in
      (
        record made {
          pull_streams = insert name s made.pull_streams;
          effects = offered s.addr ∷ started s.addr ∷ made.effects;
        },
        true,
      )
]

-- `on_connection_state`, of either kind of stream.
unfoldable pub on_connection_state : Stream → PeerConnectionState → Manager → Manager
unfolding remove_push_stream
on_connection_state s PeerConnectionState.failed m = remove_push_stream s.uid s.stream_name m
on_connection_state s PeerConnectionState.new m = m
on_connection_state s PeerConnectionState.connecting m = m
on_connection_state s PeerConnectionState.connected m = m
on_connection_state s PeerConnectionState.disconnected m = m
on_connection_state s PeerConnectionState.closed m = m

-- `send_rtp` or `send_rtcp` on a stream that was looked up.
unfoldable pub forward : Option Stream → (ℕ → Effect) → Manager → Manager
forward none e m = m
forward (some s) e m = record m { effects = e s.addr ∷ m.effects }

unfoldable pub on_rtp_packet_received : Stream → List ℕ → Manager → Manager
unfolding find_pull_stream forward
on_rtp_packet_received s packet m = elim s.stream_type [
  | k_push ↦ forward (find_pull_stream s.stream_name m) (λ a. rtp a packet) m
  | k_pull ↦ m
]

unfoldable pub on_rtcp_packet_received : Stream → List ℕ → Manager → Manager
unfolding find_push_stream find_pull_stream forward
on_rtcp_packet_received s packet m = elim s.stream_type [
  | k_push ↦ forward (find_pull_stream s.stream_name m) (λ a. rtcp a packet) m
  | k_pull ↦ forward (find_push_stream s.stream_name m) (λ a. rtcp a packet) m
]

-- `on_stream_exception`, after the ICE timeout.
unfoldable pub on_stream_exception : Stream → Manager → Manager
unfolding remove_push_stream remove_pull_stream
on_stream_exception s m = elim s.stream_type [
  | k_push ↦ remove_push_stream s.uid s.stream_name m
  | k_pull ↦ remove_pull_stream s.uid s.stream_name m
]

-- The calls that reach the manager, from the worker and from its streams.
pub data Call : Type 0 where
  creates_push : ℕ → List ℕ → Bool → Bool → Call
  creates_pull : ℕ → List ℕ → Bool → Bool → Call
  answers : ℕ → List ℕ → List ℕ → AnswerType → Call
  stops_push stops_pull : ℕ → List ℕ → Call
  reports : Stream → PeerConnectionState → Call
  gets_rtp gets_rtcp : Stream → List ℕ → Call
  times_out : Stream → Call

unfoldable pub step : (Stream → Bool → List ℕ) → Manager → Call → Manager
step get_source m (creates_push uid name audio video) = create_push_stream uid name audio video m
step get_source m (creates_pull uid name audio video) =
    (create_pull_stream get_source uid name audio video m).0
step get_source m (answers uid name sdp type) = (set_answer uid name sdp type m).0
step get_source m (stops_push uid name) = stop_push uid name m
step get_source m (stops_pull uid name) = stop_pull uid name m
step get_source m (reports s state) = on_connection_state s state m
step get_source m (gets_rtp s packet) = on_rtp_packet_received s packet m
step get_source m (gets_rtcp s packet) = on_rtcp_packet_received s packet m
step get_source m (times_out s) = on_stream_exception s m

unfoldable pub run : (Stream → Bool → List ℕ) → Manager → List Call → Manager
run get_source m [] = m
run get_source m (c ∷ cs) = run get_source (step get_source m c) cs

-- The constructor.
unfoldable pub new_manager : Manager
new_manager = record {
  push_streams = [];
  pull_streams = [];
  alive = λ a. none;
  next_addr = 0;
  effects = [];
}

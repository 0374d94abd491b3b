-- ===== src/Tests/Streams.antt =====
-- The theorems on the queue, the packets and the streams at small inputs.
use web_rtcserver.Prelude.{
  ℕ, ◌+◌, ◌≡◌, ◌≢◌, ◌≤◌, ◌<◌, ◌↔◌, refl, Bool, true, false, List, [], ◌∷◌, none, some, arith,
  length, bytes_eq→eq,
}
use web_rtcserver.Prelude.Maps.{lookup}
use web_rtcserver.Base.LockFreeQueue.{
  LockFreeQueue, IsLinked, produce, size, pending, run, run_list, run-run_list, produce_frees,
  size-pending, empty,
}
use web_rtcserver.Rtp.{infer_rtp_packet_type, k_rtcp, IsRtcpByte, infer_rtp_packet_type_rtcp}
use web_rtcserver.Pc.TransportController.{PeerConnectionState}
use web_rtcserver.Stream.Manager.{
  StreamType, k_push, k_pull, Stream, Manager, Call, creates_push, creates_pull, new_manager,
  find_push_stream, find_pull_stream, create_push_stream, create_pull_stream, remove_pull_stream,
  on_connection_state, set_alive, delete_stream, new_stream,
}
use web_rtcserver.Stream.Lifetime.{IsSafe, run-IsSafe}
use web_rtcserver.Stream.Faults.{failed_pull_ends_push, create_pull_stream_loses}

-- 8 and 9 are pending behind the divider 7.
abbrev a_queue : LockFreeQueue ℕ
a_queue = record { nodes = 6 ∷ 7 ∷ 8 ∷ 9 ∷ []; divider = 1; last = 3; count = 2 }

a_queue-IsLinked : IsLinked a_queue
a_queue-IsLinked = record { ends = refl; order = omega arith; counted = refl }

run-run_list_example :
    run (none ∷ some 5 ∷ none ∷ none ∷ none ∷ []) a_queue
    ≡ run_list (none ∷ some 5 ∷ none ∷ none ∷ none ∷ []) (8 ∷ 9 ∷ [])
run-run_list_example =
    run-run_list (none ∷ some 5 ∷ none ∷ none ∷ none ∷ []) a_queue a_queue-IsLinked

produce_frees_example : length (produce 5 a_queue).nodes ≡ length (pending (produce 5 a_queue)) + 1
produce_frees_example = produce_frees 5 a_queue a_queue-IsLinked

size-pending_example : (empty a_queue ≡ false) × (size a_queue ≡ true)
size-pending_example = size-pending a_queue a_queue-IsLinked

infer_rtp_packet_type_rtcp_example :
    (infer_rtp_packet_type (128 ∷ 200 ∷ 0 ∷ 1 ∷ []) ≡ k_rtcp)
    ↔ ((2 ≤ length {A = ℕ} (0 ∷ 1 ∷ [])) × (128 ≤ 128) × (128 < 192) × IsRtcpByte 200)
infer_rtp_packet_type_rtcp_example =
    infer_rtp_packet_type_rtcp 128 200 (0 ∷ 1 ∷ []) (omega arith) (omega arith)

abbrev no_source : Stream → Bool → List ℕ
no_source s is_audio = []

abbrev some_calls : List Call
some_calls = creates_push 7 (b's' ∷ []) true true ∷ creates_pull 7 (b's' ∷ []) true false ∷ []

run-IsSafe_example : IsSafe (web_rtcserver.Stream.Manager.run no_source new_manager some_calls)
run-IsSafe_example = run-IsSafe no_source some_calls

abbrev publisher : Stream
publisher = record {
  addr = 0;
  stream_type = k_push;
  uid = 7;
  stream_name = b's' ∷ [];
  audio = true;
  video = true;
  audio_source = [];
  video_source = [];
}

abbrev player : Stream
player = record {
  addr = 1;
  stream_type = k_pull;
  uid = 7;
  stream_name = b's' ∷ [];
  audio = true;
  video = false;
  audio_source = [];
  video_source = [];
}

-- One publisher and one player, of one user.
abbrev a_manager : Manager
a_manager = record {
  push_streams = (b's' ∷ [], publisher) ∷ [];
  pull_streams = (b's' ∷ [], player) ∷ [];
  alive =
      set_alive 1 (some (k_pull, b's' ∷ [])) (set_alive 0 (some (k_push, b's' ∷ [])) (λ a. none));
  next_addr = 2;
  effects = [];
}

a_manager-IsSafe : IsSafe a_manager
unfolding set_alive lookup
a_manager-IsSafe = record {
  push_alive = λ name s e. ground (arith, bytes_eq→eq (b's' ∷ []) name);
  pull_alive = λ name s e. ground (arith, bytes_eq→eq (b's' ∷ []) name);
  fresh = λ a h. ground arith;
}

publishes : lookup (b's' ∷ []) a_manager.push_streams ≡ some publisher
unfolding lookup
publishes = refl

plays : lookup (b's' ∷ []) a_manager.pull_streams ≡ some player
unfolding lookup
plays = refl

finds_publisher : find_push_stream (b's' ∷ []) a_manager ≡ some publisher
unfolding find_push_stream
finds_publisher = publishes

finds_player : find_pull_stream (b's' ∷ []) a_manager ≡ some player
unfolding find_pull_stream
finds_player = plays

failed_pull_ends_push_example :
    let after = on_connection_state player PeerConnectionState.failed a_manager in
    (find_push_stream (b's' ∷ []) after ≡ none)
    × (find_pull_stream (b's' ∷ []) after ≡ some player)
    × (after.alive 0 ≡ none)
    × (after.alive 1 ≡ some (k_pull, b's' ∷ []))
failed_pull_ends_push_example =
    failed_pull_ends_push a_manager player publisher a_manager-IsSafe finds_player finds_publisher
      refl

create_pull_stream_loses_example :
    let after = (create_pull_stream no_source 8 (b's' ∷ []) true true a_manager).0 in
    (s : Stream) × (find_pull_stream (b's' ∷ []) after ≡ some s)
    × (s.uid ≡ 8)
    × (s.addr ≢ 1)
    × (after.alive 1 ≡ some (k_pull, b's' ∷ []))
create_pull_stream_loses_example =
    create_pull_stream_loses no_source a_manager 8 (b's' ∷ []) true true publisher player
      a_manager-IsSafe publishes plays (λ e. ground arith)

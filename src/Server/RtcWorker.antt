-- ===== src/Server/RtcWorker.antt =====
-- server/rtc_worker.cpp: the messages for the streams of one worker, and what it answers.
use web_rtcserver.Prelude.{ℕ, Bool, true, not, List, [], ◌∷◌, none, some, ◌==◌, if◌then◌else◌}
use web_rtcserver.Base.LockFreeQueue.{LockFreeQueue, produce, consume}
use web_rtcserver.Server.Messages.{
  RtcMsg, minus_one, cmdno_push, cmdno_pull, cmdno_answer, cmdno_stop_push, cmdno_stoppull,
}
use web_rtcserver.Stream.Manager.{
  Manager, Stream, AnswerType, create_push_stream, create_pull_stream, set_answer, stop_push,
  stop_pull,
}

-- `_rtc_stream_mgr`, `_q_msg`, and the messages sent back, each with its signaling worker, newest
-- first.
pub record RtcWorker : Type 0 where
  pub manager : Manager
  pub worker_q_msg : LockFreeQueue RtcMsg
  pub answered : List (ℕ × RtcMsg)

-- `push_msg`.
unfoldable pub worker_push_msg : RtcMsg → RtcWorker → RtcWorker
unfolding produce
worker_push_msg msg w = record w { worker_q_msg = produce msg w.worker_q_msg }

-- An `int` passed for a `bool`.
abbrev pub to_bool : ℕ → Bool
to_bool n = not (n == 0)

-- The sources of a publisher, as in the stream manager; the offer that `create_offer` makes for the
-- stream that was created last; the kind that the text of an answer's type names.
module _ (get_source : Stream → Bool → List ℕ) (create_offer : Manager → List ℕ)
    (answer_type : List ℕ → AnswerType) where
  -- `worker->send_rtc_msg(msg)`, if there is a signaling worker.
  unfoldable pub answer_msg : RtcMsg → RtcWorker → RtcWorker
  answer_msg msg w = elim msg.worker [
    | none ↦ w
    | some to ↦ record w { answered = (to, msg) ∷ w.answered }
  ]

  -- The end of `_process_push` and `_process_pull`.
  unfoldable pub answer_result : RtcMsg → Manager → List ℕ → Bool → RtcWorker → RtcWorker
  unfolding answer_msg
  answer_result msg m offer ok w =
      answer_msg (record msg { sdp = offer; err_no = if ok then msg.err_no else minus_one })
        (record w { manager = m })

  unfoldable pub worker_process_push : RtcMsg → RtcWorker → RtcWorker
  unfolding answer_result create_push_stream
  worker_process_push msg w =
      let m =
        create_push_stream msg.uid msg.stream_name (to_bool msg.audio) (to_bool msg.video)
          w.manager in
      answer_result msg m (create_offer m) true w

  -- A failed `create_pull_stream` leaves the offer empty.
  unfoldable pub worker_process_pull : RtcMsg → RtcWorker → RtcWorker
  unfolding answer_result create_pull_stream
  worker_process_pull msg w =
      let (m, ok) =
        create_pull_stream get_source msg.uid msg.stream_name (to_bool msg.audio)
          (to_bool msg.video) w.manager in
      answer_result msg m (if ok then create_offer m else []) ok w

  unfoldable pub worker_process_answer : RtcMsg → RtcWorker → RtcWorker
  unfolding set_answer
  worker_process_answer msg w = record w {
    manager =
        (set_answer msg.uid msg.stream_name msg.sdp (answer_type msg.stream_type) w.manager).0;
  }

  unfoldable pub worker_process_stop_push : RtcMsg → RtcWorker → RtcWorker
  unfolding stop_push
  worker_process_stop_push msg w = record w {
    manager = stop_push msg.uid msg.stream_name w.manager;
  }

  unfoldable pub worker_process_stop_pull : RtcMsg → RtcWorker → RtcWorker
  unfolding stop_pull
  worker_process_stop_pull msg w = record w {
    manager = stop_pull msg.uid msg.stream_name w.manager;
  }

  -- The switch of `_process_rtc_msg`.
  unfoldable pub handle_msg : RtcMsg → RtcWorker → RtcWorker
  unfolding worker_process_push worker_process_pull worker_process_answer worker_process_stop_push
      worker_process_stop_pull
  handle_msg msg w =
      if msg.cmdno == cmdno_push
      then worker_process_push msg w
      else if msg.cmdno == cmdno_pull
      then worker_process_pull msg w
      else if msg.cmdno == cmdno_stop_push
      then worker_process_stop_push msg w
      else if msg.cmdno == cmdno_stoppull
      then worker_process_stop_pull msg w
      else if msg.cmdno == cmdno_answer
      then worker_process_answer msg w
      else w

  -- `_process_rtc_msg`, with its `pop_msg`.
  unfoldable pub worker_process_rtc_msg : RtcWorker → RtcWorker
  unfolding handle_msg consume
  worker_process_rtc_msg w =
      let (queue, taken) = consume w.worker_q_msg in
      let w' = record w { worker_q_msg = queue } in
      elim taken [ none ↦ w' | some msg ↦ handle_msg msg w' ]

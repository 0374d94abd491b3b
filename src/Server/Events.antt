-- ===== src/Server/Events.antt =====
-- server/signaling_worker.cpp: what reaches a worker, event by event. `new` gives a connection an
-- address by `malloc`.
use web_rtcserver.Prelude.{ℕ, Bool, List, [], ◌∷◌, Option, none, some}
use web_rtcserver.Server.Messages.{RtcMsg, Json}
use web_rtcserver.Server.Requests.{TcpConnection}
use web_rtcserver.Server.Worker.{
  SignalingWorker, Outcome, returns, faults, loops, read_query, write_reply, process_timeout,
  process_notify, push_msg, push_conn,
}

-- A file descriptor can be read (with what `sock_read_data` gives), written (with what
-- `sock_write_data` gives), or both; the timer of a connection ticks; the pipe holds a
-- notification; other threads push a message or a file descriptor.
pub data Event : Type 0 where
  io_ready : ℕ → ℕ → Option (Option (List ℕ)) → Option (List (Option ℕ)) → Event
  ticks : ℕ → ℕ → Event
  is_notified : ℕ → ℕ → Event
  gets_msg : RtcMsg → Event
  gets_conn : ℕ → Event

abbrev pub then_do : Outcome → (SignalingWorker → Outcome) → Outcome
then_do (returns w) f = f w
then_do faults f = faults
then_do loops f = loops

module _ (json : Json) (notified : RtcMsg → Bool) (self timeout : ℕ)
    (malloc : List (ℕ × TcpConnection) → ℕ) where
  unfoldable pub read_if : Option (Option (List ℕ)) → ℕ → ℕ → SignalingWorker → Outcome
  unfolding read_query
  read_if none now fd w = returns w
  read_if (some read) now fd w = read_query json notified self read now fd w

  unfoldable pub write_if : Option (List (Option ℕ)) → ℕ → ℕ → SignalingWorker → Outcome
  unfolding write_reply
  write_if none now fd w = returns w
  write_if (some results) now fd w = write_reply results now fd w

  -- `conn_io_cb`.
  unfoldable pub conn_io_cb :
      Option (Option (List ℕ)) → Option (List (Option ℕ)) → ℕ → ℕ → SignalingWorker → Outcome
  unfolding read_if write_if
  conn_io_cb read written now fd w = then_do (read_if read now fd w) (write_if written now fd)

  unfoldable pub worker_step : Event → SignalingWorker → Outcome
  unfolding conn_io_cb process_timeout process_notify push_msg push_conn
  worker_step (io_ready fd now read written) w = conn_io_cb read written now fd w
  worker_step (ticks at now) w = process_timeout timeout at now w
  worker_step (is_notified msg now) w = process_notify json notified self (malloc w.heap) now msg w
  worker_step (gets_msg msg) w = returns (push_msg json notified self msg w)
  worker_step (gets_conn fd) w = returns (push_conn json notified self fd w)

  unfoldable pub run_worker : List Event → SignalingWorker → Outcome
  unfolding worker_step
  run_worker [] w = returns w
  run_worker (e ∷ es) w = then_do (worker_step e w) (run_worker es)

-- ===== src/Server/Sound.antt =====
-- Of server/signaling_worker.cpp: every handler keeps the table sound, so every run does.
use web_rtcserver.Prelude.{
  ℕ, ◌≡◌, refl, Bool, List, [], ◌∷◌, Option, none, some, arith, inl, inr, Bool-cases, Option-cases,
  List-cases, get_elem?, ◌==◌, ◌||◌,
}
use web_rtcserver.Prelude.Heap.{object_at}
use web_rtcserver.Base.LockFreeQueue.{LockFreeQueue, consume}
use mathlib.Core.Path.{subst}
use web_rtcserver.Server.Messages.{RtcMsg, Json, cmdno_push, cmdno_pull}
use web_rtcserver.Server.Requests.{TcpConnection, add_reply}
use web_rtcserver.Server.Worker.{
  SignalingWorker, new_worker, Outcome, returns, faults, loops, is_negative, response_server_offer,
  process_rtc_msg, push_msg, push_conn, stop, new_conn_of, process_notify,
}
use web_rtcserver.Server.Events.{
  Event, io_ready, ticks, is_notified, gets_msg, gets_conn, then_do, read_if, write_if, conn_io_cb,
  worker_step, run_worker,
}
use web_rtcserver.Server.Table.{IsTable, Sound, store-IsTable, new_conn-Sound}
use web_rtcserver.Server.SoundIo.{process_timeout-Sound, write_reply-Sound, read_query-Sound}

module _ (json : Json) (notified : RtcMsg → Bool) (self : ℕ) where
  response_server_offer-Sound :
      (msg : RtcMsg) (w : SignalingWorker)
      → IsTable w
      → Sound (response_server_offer json notified self msg w)
  unfolding response_server_offer add_reply
  response_server_offer-Sound msg w h = elim (Option-cases msg.conn) [
    | inl e ↦ simp (response_server_offer, e) h
    | inr (at, e) ↦ elim (Bool-cases (is_negative msg.msg_fd || msg.msg_fd == 0)) [
      | inl t ↦ simp (response_server_offer, e, t) h
      | inr t ↦ elim (Option-cases (get_elem? w.conns msg.msg_fd)) [
        | inl f ↦ simp (response_server_offer, e, t, f) h
        | inr (none, f) ↦ simp (response_server_offer, e, t, f) h
        | inr (some other, f) ↦ elim (Bool-cases (other == at)) [
          | inl u ↦ elim (Option-cases (object_at at w.heap)) [
            | inl g ↦ simp (response_server_offer, e, t, f, u, g) tt
            | inr (c, g) ↦
                simp (response_server_offer, e, t, f, u, g) (store-IsTable w at c _ h g refl)
          ]
          | inr u ↦ simp (response_server_offer, e, t, f, u) h
        ]
      ]
    ]
  ]

  process_rtc_msg-Sound :
      (w : SignalingWorker) → IsTable w → Sound (process_rtc_msg json notified self w)
  unfolding process_rtc_msg
  process_rtc_msg-Sound w h = elim (List-cases w.q_msg) [
    | inl e ↦ simp (process_rtc_msg, e) h
    | inr (msg, rest, e) ↦ elim (Bool-cases (msg.cmdno == cmdno_push || msg.cmdno == cmdno_pull)) [
      | inl t ↦
          simp (process_rtc_msg, e, t)
            (response_server_offer-Sound msg (record w { q_msg = rest }) (record { held = h.held }))
      | inr t ↦ simp (process_rtc_msg, e, t) (record { held = h.held })
    ]
  ]

  new_conn_of-Sound :
      (at now : ℕ) (queue : LockFreeQueue ℕ) (taken : Option ℕ) (w : SignalingWorker)
      → IsTable w
      → object_at at w.heap ≡ none
      → Sound (new_conn_of json notified self at now (queue, taken) w)
  unfolding new_conn_of
  new_conn_of-Sound at now queue none w h fresh = record { held = h.held }
  new_conn_of-Sound at now queue (some fd) w h fresh =
      new_conn-Sound at now fd (record w { q_conn = queue }) (record { held = h.held }) fresh

  stop-IsTable : (w : SignalingWorker) → IsTable w → IsTable (stop json notified self w)
  unfolding stop
  stop-IsTable w h = elim (Bool-cases w.started) [
    | inl t ↦ simp (stop, t) (record { held = h.held })
    | inr t ↦ simp (stop, t) h
  ]

  process_notify-Sound :
      (at now msg : ℕ) (w : SignalingWorker)
      → IsTable w
      → object_at at w.heap ≡ none
      → Sound (process_notify json notified self at now msg w)
  unfolding process_notify
  process_notify-Sound at now msg w h fresh = elim (Bool-cases (msg == 0)) [
    | inl t ↦ simp (process_notify, t) (stop-IsTable w h)
    | inr t ↦ elim (Bool-cases (msg == 1)) [
      | inl u ↦
          simp (process_notify, t, u)
            (new_conn_of-Sound at now (consume w.q_conn).0 (consume w.q_conn).1 w h fresh)
      | inr u ↦ elim (Bool-cases (msg == 2)) [
        | inl v ↦ simp (process_notify, t, u, v) (process_rtc_msg-Sound w h)
        | inr v ↦ simp (process_notify, t, u, v) h
      ]
    ]
  ]

  then_do-Sound :
      (o : Outcome) (f : SignalingWorker → Outcome)
      → Sound o
      → ((w : SignalingWorker) → IsTable w → Sound (f w))
      → Sound (then_do o f)
  then_do-Sound (returns w) f h k = k w h
  then_do-Sound faults f h k = tt
  then_do-Sound loops f h k = tt

  module _ (timeout : ℕ) (malloc : List (ℕ × TcpConnection) → ℕ)
      (malloc_fresh : (heap : List (ℕ × TcpConnection)) → object_at (malloc heap) heap ≡ none) where
    read_if-Sound :
        (read : Option (Option (List ℕ))) (now fd : ℕ) (w : SignalingWorker)
        → IsTable w
        → Sound (read_if json notified self timeout malloc read now fd w)
    unfolding read_if
    read_if-Sound none now fd w h = h
    read_if-Sound (some read) now fd w h = read_query-Sound json notified self read now fd w h

    write_if-Sound :
        (results : Option (List (Option ℕ))) (now fd : ℕ) (w : SignalingWorker)
        → IsTable w
        → Sound (write_if json notified self timeout malloc results now fd w)
    unfolding write_if
    write_if-Sound none now fd w h = h
    write_if-Sound (some results) now fd w h = write_reply-Sound results now fd w h

    worker_step-Sound :
        (e : Event) (w : SignalingWorker)
        → IsTable w
        → Sound (worker_step json notified self timeout malloc e w)
    unfolding worker_step conn_io_cb push_msg push_conn
    worker_step-Sound (io_ready fd now read written) w h =
        then_do-Sound _ _ (read_if-Sound read now fd w h) (write_if-Sound written now fd)
    worker_step-Sound (ticks at now) w h = process_timeout-Sound timeout at now w h
    worker_step-Sound (is_notified msg now) w h =
        process_notify-Sound (malloc w.heap) now msg w h (malloc_fresh w.heap)
    worker_step-Sound (gets_msg msg) w h = record { held = h.held }
    worker_step-Sound (gets_conn fd) w h = record { held = h.held }

    run_worker-Sound :
        (es : List Event) (w : SignalingWorker)
        → IsTable w
        → Sound (run_worker json notified self timeout malloc es w)
    unfolding run_worker
    run_worker-Sound [] w h = h
    run_worker-Sound (e ∷ es) w h =
        then_do-Sound _ _ (worker_step-Sound e w h) (run_worker-Sound es)

    -- After every run of a new worker, whose `new` gives unused addresses: each entry of the table
    -- points to a connection that is alive and is of that file descriptor.
    pub run_worker-IsTable :
        (es : List Event) (w : SignalingWorker)
        → run_worker json notified self timeout malloc es new_worker ≡ returns w
        → IsTable w
    unfolding new_worker
    run_worker-IsTable es w e =
        subst Sound e
          (run_worker-Sound es new_worker (record { held = λ fd at f. ground (arith, f) }))

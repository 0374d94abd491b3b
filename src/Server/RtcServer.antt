-- ===== src/Server/RtcServer.antt =====
-- server/rtc_server.cpp: the messages of the signaling workers go to the RTC workers, by the name of
-- their stream.
use web_rtcserver.Prelude.{
  ℕ, ◌%◌, Bool, true, not, ◌||◌, List, [], ◌∷◌, ◌++◌, Option, none, some, length, get_elem?, ◌==◌,
  if◌then◌else◌, is_some,
}
use web_rtcserver.Prelude.Heap.{set_elem}
use web_rtcserver.Rtc.{RtcBase}
use web_rtcserver.Base.LockFreeQueue.{LockFreeQueue, produce}
use web_rtcserver.Server.Messages.{RtcMsg}

-- The queue, the address of the certificate, and the queues of the workers, whose number is to be
-- `worker_num`.
pub record RtcServer : Type 0 where
  pub q_msg : List RtcMsg
  pub certificate : Option ℕ
  pub worker_num : ℕ
  pub workers : List (LockFreeQueue RtcMsg)

-- `push_msg`.
unfoldable pub server_push_msg : RtcMsg → RtcServer → RtcServer
server_push_msg msg s = record s { q_msg = s.q_msg ++ msg ∷ [] }

-- Whether a certificate has expired by now, and what `GenerateCertificate` gives.
module _ (r : RtcBase) (has_expired : ℕ → Bool) (generated : Option ℕ) where
  open r use {compute_crc32}

  -- `_gengerate_and_check_certificate`; the Boolean is the result 0.
  unfoldable pub generate_and_check_certificate : RtcServer → RtcServer × Bool
  generate_and_check_certificate s = elim s.certificate [
    | none ↦ (record s { certificate = generated }, is_some generated)
    | some at ↦
        if has_expired at
        then (record s { certificate = generated }, is_some generated)
        else (s, true)
  ]

  -- `_get_worker`: the number of the worker.
  unfoldable pub get_worker : List ℕ → RtcServer → Option ℕ
  get_worker stream_name s =
      if length s.workers == 0 || not (length s.workers == s.worker_num)
      then none
      else some (compute_crc32 stream_name % s.worker_num)

  -- `worker->send_rtc_msg(msg)`.
  unfoldable pub send_to_worker : Option ℕ → RtcMsg → RtcServer → RtcServer
  unfolding produce
  send_to_worker none msg s = s
  send_to_worker (some i) msg s = elim (get_elem? s.workers i) [
    | none ↦ s
    | some queue ↦ record s { workers = set_elem i (produce msg queue) s.workers }
  ]

  -- `_process_rtc_msg`, with its `pop_msg`.
  unfoldable pub server_process_rtc_msg : RtcServer → RtcServer
  unfolding generate_and_check_certificate get_worker send_to_worker
  server_process_rtc_msg s = elim s.q_msg [
    | [] ↦ s
    | (msg ∷ rest) ↦
        let (checked, ok) = generate_and_check_certificate (record s { q_msg = rest }) in
        if ok
        then send_to_worker (get_worker msg.stream_name checked)
            (record msg { certificate = checked.certificate }) checked
        else checked
  ]

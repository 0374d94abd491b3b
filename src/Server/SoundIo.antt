-- ===== src/Server/SoundIo.antt =====
-- Of server/signaling_worker.cpp: the handlers of one connection keep the table sound.
use web_rtcserver.Prelude.{
  ℕ, zero, suc, ◌+◌, ◌-◌, ◌^◌, ◌%◌, ◌≡◌, ◌≢◌, ◌↔◌, refl, ap, Bool, true, false, List, [], ◌∷◌, ◌++◌,
  Option, none, some, arith, ◌⊎◌, inl, inr, Bool-cases, Option-cases, List-cases, length, take,
  drop, get_elem?, leb, ◌==◌, ◌||◌,
}
use web_rtcserver.Prelude.Heap.{object_at}
use mathlib.Core.Path.{subst}
use web_rtcserver.Server.Xhead.{xhead_size, xhead_magic_num, magic_num, body_len}
use web_rtcserver.Server.Messages.{RtcMsg, Json}
use web_rtcserver.Server.Requests.{
  ReadState, state_head, state_body, TcpConnection, enter_body, end_body, process_request,
  process_query_buffer,
}
use web_rtcserver.Server.Worker.{
  SignalingWorker, faults, is_negative, process_timeout, write_loop, end_write, emptied, failed,
  unfinished, WriteEnd, write_reply, end_read, read_query,
}
use web_rtcserver.Server.RequestSteps.{request_buffer}
use web_rtcserver.Server.Table.{IsTable, Sound, close_conn-IsTable, store-IsTable}

pub process_timeout-Sound :
    (timeout at now : ℕ) (w : SignalingWorker)
    → IsTable w
    → Sound (process_timeout timeout at now w)
unfolding process_timeout
process_timeout-Sound timeout at now w h = elim (Option-cases (object_at at w.heap)) [
  | inl e ↦ simp (process_timeout, e) tt
  | inr (c, e) ↦ elim (Bool-cases (leb timeout ((now + 2 ^ 64 - c.last_interaction) % 2 ^ 64))) [
    | inl t ↦ simp (process_timeout, e, t) (close_conn-IsTable w at c c h e refl)
    | inr t ↦ simp (process_timeout, e, t) h
  ]
]

-- The loop of `_write_reply` keeps the file descriptor.
write_loop-fd : (results : List (Option ℕ)) (c : TcpConnection) → (write_loop results c).0.fd ≡ c.fd
unfolding write_loop
write_loop-fd [] c = elim (List-cases c.reply_list) [
  | inl e ↦ simp (write_loop, e)
  | inr (r, rs, e) ↦ simp (write_loop, e)
]
write_loop-fd (none ∷ results) c = elim (List-cases c.reply_list) [
  | inl e ↦ simp (write_loop, e)
  | inr (r, rs, e) ↦ simp (write_loop, e)
]
write_loop-fd (some n ∷ results) c = elim (List-cases c.reply_list) [
  | inl e ↦ simp (write_loop, e)
  | inr (r, rs, e) ↦ elim (Bool-cases (n == 0)) [
    | inl z ↦ simp (write_loop, e, z) (write_loop-fd results c)
    | inr z ↦ elim (Bool-cases (leb r.reply_size (n + c.cur_resp_pos))) [
      | inl t ↦
          simp (write_loop, e, z, t)
            (write_loop-fd results (record c { reply_list = rs; cur_resp_pos = 0 }))
      | inr t ↦
          simp (write_loop, e, z, t)
            (write_loop-fd results
              (record c { reply_list = r ∷ rs; cur_resp_pos = c.cur_resp_pos + n }))
    ]
  ]
]

end_write-Sound :
    (at now : ℕ) (w : SignalingWorker) (c : TcpConnection) (d : TcpConnection)
    (out : List (Option ℕ)) (end : WriteEnd)
    → IsTable w
    → object_at at w.heap ≡ some c
    → d.fd ≡ c.fd
    → Sound (end_write at now w (d, out, end))
unfolding end_write
end_write-Sound at now w c d out emptied h e same = record {
  held = (store-IsTable w at c (record d { last_interaction = now }) h e same).held;
}
end_write-Sound at now w c d out failed h e same =
    close_conn-IsTable (record w { wire = w.wire ++ (d.fd, out) ∷ [] }) at c d
      (record { held = h.held }) e same
end_write-Sound at now w c d out unfinished h e same = tt

pub write_reply-Sound :
    (results : List (Option ℕ)) (now fd : ℕ) (w : SignalingWorker)
    → IsTable w
    → Sound (write_reply results now fd w)
unfolding write_reply
write_reply-Sound results now fd w h = elim (Bool-cases (is_negative fd || fd == 0)) [
  | inl t ↦ simp (write_reply, t) h
  | inr t ↦ elim (Option-cases (get_elem? w.conns fd)) [
    | inl e ↦ simp (write_reply, t, e) h
    | inr (none, e) ↦ simp (write_reply, t, e) h
    | inr (some at, e) ↦
        let (c, there, its_fd) = h.held fd at e in
        let r = write_loop results c in
        simp (write_reply, t, e, there)
          (end_write-Sound at now w c r.0 r.1 r.2 h there (write_loop-fd results c))
  ]
]

ReadState-cases : (s : ReadState) → (s ≡ state_head) ⊎ (s ≡ state_body)
ReadState-cases state_head = inl refl
ReadState-cases state_body = inr refl

module _ (json : Json) (notified : RtcMsg → Bool) (self : ℕ) where
  -- What a connection after a read is of.
  abbrev OfFd : ℕ → Option (TcpConnection × List RtcMsg × Bool) → Type 0
  OfFd fd none = Unit
  OfFd fd (some r) = r.0.fd ≡ fd

  process_query_buffer-OfFd :
      (at n : ℕ) (c : TcpConnection) (sent : List RtcMsg)
      → OfFd c.fd (process_query_buffer json notified self at n c sent)
  unfolding process_query_buffer enter_body end_body
  process_query_buffer-OfFd at zero c sent =
      elim (Bool-cases (leb (c.bytes_processed + c.bytes_expected) (length c.querybuf))) [
        | inl t ↦ simp (process_query_buffer, t) tt
        | inr t ↦ simp (process_query_buffer, t)
      ]
  process_query_buffer-OfFd at (suc n) c sent =
      elim (Bool-cases (leb (c.bytes_processed + c.bytes_expected) (length c.querybuf))) [
        | inl t ↦ elim (ReadState-cases c.current_state) [
          | inl e ↦ elim (Bool-cases (magic_num c.querybuf == xhead_magic_num)) [
            | inl m ↦
                simp (process_query_buffer, t, e, m)
                  (process_query_buffer-OfFd at n (enter_body c) sent)
            | inr m ↦ simp (process_query_buffer, t, e, m)
          ]
          | inr e ↦
              let header = take xhead_size c.querybuf in
              let body = take (body_len c.querybuf) (drop xhead_size c.querybuf) in
              let r = process_request json notified self at header body c sent in
              let same : r.0.fd ≡ c.fd =
                ap (λ d. d.fd) (request_buffer json notified self at header body c sent) in
              elim (Bool-cases r.2) [
                | inl ok ↦
                    simp (process_query_buffer, t, e, ok)
                      (subst
                        (λ fd.
                          OfFd fd (process_query_buffer json notified self at n (end_body r.0) r.1))
                        same (process_query_buffer-OfFd at n (end_body r.0) r.1))
                | inr bad ↦ simp (process_query_buffer, t, e, bad) same
              ]
        ]
        | inr t ↦ simp (process_query_buffer, t)
      ]

  end_read-Sound :
      (at : ℕ) (w : SignalingWorker) (c : TcpConnection)
      (r : Option (TcpConnection × List RtcMsg × Bool))
      → IsTable w
      → object_at at w.heap ≡ some c
      → OfFd c.fd r
      → Sound (end_read json notified self at w r)
  unfolding end_read
  end_read-Sound at w c none h e same = tt
  end_read-Sound at w c (some (d, sent, true)) h e same = record {
    held = (store-IsTable w at c d h e same).held;
  }
  end_read-Sound at w c (some (d, sent, false)) h e same =
      close_conn-IsTable (record w { sent = sent }) at c d (record { held = h.held }) e same

  pub read_query-Sound :
      (read : Option (List ℕ)) (now fd : ℕ) (w : SignalingWorker)
      → IsTable w
      → Sound (read_query json notified self read now fd w)
  unfolding read_query
  read_query-Sound read now fd w h = elim (Bool-cases (is_negative fd)) [
    | inl t ↦ simp (read_query, t) h
    | inr t ↦ elim (Option-cases (get_elem? w.conns fd)) [
      | inl e ↦ simp (read_query, t, e) h
      | inr (none, e) ↦ simp (read_query, t, e) tt
      | inr (some at, e) ↦
          let (c, there, its_fd) = h.held fd at e in
          elim (Option-cases read) [
            | inl f ↦ simp (read_query, t, e, there, f) (close_conn-IsTable w at c c h there refl)
            | inr (bytes, f) ↦
                let d = record c { last_interaction = now; querybuf = c.querybuf ++ bytes } in
                simp (read_query, t, e, there, f)
                  (end_read-Sound at w c (process_query_buffer json notified self at 2 d w.sent) h
                    there (process_query_buffer-OfFd at 2 d w.sent))
          ]
    ]
  ]

  end_read-ne-faults :
      (at : ℕ) (w : SignalingWorker) (r : Option (TcpConnection × List RtcMsg × Bool))
      → end_read json notified self at w r ≢ faults
  unfolding end_read
  end_read-ne-faults at w none e = ground (arith, e)
  end_read-ne-faults at w (some (d, sent, true)) e = ground (arith, e)
  end_read-ne-faults at w (some (d, sent, false)) e = ground (arith, e)

  -- In a sound table, `_read_query` goes through a null pointer exactly if the entry is one.
  read_query-faults :
      (read : Option (List ℕ)) (now fd : ℕ) (w : SignalingWorker)
      → IsTable w
      → is_negative fd ≡ false
      → (read_query json notified self read now fd w ≡ faults) ↔ (get_elem? w.conns fd ≡ some none)
  unfolding read_query end_read
  read_query-faults read now fd w h t = elim (Option-cases (get_elem? w.conns fd)) [
    | inl e ↦ simp (read_query, t, e) (λ k. ground (arith, k), λ k. ground (arith, k))
    | inr (none, e) ↦ simp (read_query, t, e) (λ k. refl, λ k. refl)
    | inr (some at, e) ↦
        let (c, there, its_fd) = h.held fd at e in
        elim (Option-cases read) [
          | inl f ↦
              simp (read_query, t, e, there, f) (λ k. ground (arith, k), λ k. ground (arith, k))
          | inr (bytes, f) ↦
              simp (read_query, t, e, there, f)
                (λ k. absurd (end_read-ne-faults at w _ k), λ k. ground (arith, k))
        ]
  ]

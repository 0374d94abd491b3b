-- ===== src/Server/Routing.antt =====
-- Of server/rtc_server.cpp: the messages reach the workers in order, each worker those of its streams.
use web_rtcserver.Prelude.{
  ℕ, zero, suc, ◌%◌, ◌<◌, ◌≡◌, refl, sym, ap, ◌∙◌, Bool, true, false, List, [], ◌∷◌, ◌++◌, Option,
  none, some, arith, ◌⊎◌, inl, inr, Bool-cases, length, get_elem?, ◌==◌, if◌then◌else◌,
  append_assoc, append-nil,
}
use mathlib.Core.Path.{subst}
use native.Mathlib.Nat.{mod-lt}
use web_rtcserver.Prelude.Heap.{
  set_elem, get_elem?-set_elem_other, get_elem?-set_elem, length-set_elem,
}
use web_rtcserver.Rtc.{RtcBase}
use web_rtcserver.Base.LockFreeQueue.{
  LockFreeQueue, produce, pending, IsLinked, pending-produce, produce-IsLinked,
}
use web_rtcserver.Server.Messages.{RtcMsg}
use web_rtcserver.Server.RtcServer.{
  RtcServer, generate_and_check_certificate, get_worker, send_to_worker, server_process_rtc_msg,
}

some_elem {ℓ} :
    {A : Type ℓ} (i : ℕ) (xs : List A) → i < length xs → (x : A) × (get_elem? xs i ≡ some x)
some_elem i [] h = absurd (omega arith)
some_elem zero (x ∷ xs) h = (x, refl)
some_elem (suc i) (x ∷ xs) h = some_elem i xs (omega arith)

set_elem-cases {ℓ} :
    {A : Type ℓ} (i j : ℕ) (x y : A) (xs : List A)
    → get_elem? (set_elem i x xs) j ≡ some y
    → (x ≡ y) ⊎ (get_elem? xs j ≡ some y)
set_elem-cases i j x y [] h = inr h
set_elem-cases zero zero x y (z ∷ zs) h = inl (ground (arith, h))
set_elem-cases zero (suc j) x y (z ∷ zs) h = inr h
set_elem-cases (suc i) zero x y (z ∷ zs) h = inr h
set_elem-cases (suc i) (suc j) x y (z ∷ zs) h = set_elem-cases i j x y zs h

abbrev pending_of : Option (LockFreeQueue RtcMsg) → List RtcMsg
pending_of none = []
pending_of (some q) = pending q

module _ (r : RtcBase) (has_expired : ℕ → Bool) (generated : Option ℕ) where
  open r use {compute_crc32}

  -- As many calls as there are messages.
  unfoldable pub process_all : ℕ → RtcServer → RtcServer
  unfolding server_process_rtc_msg
  process_all zero s = s
  process_all (suc n) s = process_all n (server_process_rtc_msg r has_expired generated s)

  -- The messages whose stream belongs to a worker, with the certificate, in order.
  abbrev pub routed : ℕ → Option ℕ → ℕ → List RtcMsg → List RtcMsg
  routed n at i [] = []
  routed n at i (msg ∷ msgs) =
      if compute_crc32 msg.stream_name % n == i
      then record msg { certificate = at } ∷ routed n at i msgs
      else routed n at i msgs

  pub record IsRouting (s : RtcServer) : Type 0 where
    pub some_worker : 0 < s.worker_num
    pub all_workers : length s.workers ≡ s.worker_num
    pub linked : (i : ℕ) (q : LockFreeQueue RtcMsg) → get_elem? s.workers i ≡ some q → IsLinked q
    pub certified : (at : ℕ) × (s.certificate ≡ some at) × (has_expired at ≡ false)

  -- One call, where there is a message.
  routes :
      (s : RtcServer) (msg : RtcMsg) (rest : List RtcMsg) (q : LockFreeQueue RtcMsg)
      → IsRouting s
      → s.q_msg ≡ msg ∷ rest
      → get_elem? s.workers (compute_crc32 msg.stream_name % s.worker_num) ≡ some q
      → server_process_rtc_msg r has_expired generated s ≡ record s {
        q_msg = rest;
        workers =
            set_elem
              (compute_crc32 msg.stream_name % s.worker_num)
              (produce (record msg { certificate = s.certificate }) q)
              s.workers;
      }
  unfolding server_process_rtc_msg generate_and_check_certificate get_worker send_to_worker
  routes s msg rest q h e f =
      let (at, is_at, valid) = h.certified in
      let some_worker = h.some_worker in
      let all_workers = h.all_workers in
      let t : (length s.workers == 0) ≡ false = ground arith in
      let u : (length s.workers == s.worker_num) ≡ true = ground arith in
      simp (
        server_process_rtc_msg, e, generate_and_check_certificate, is_at, valid, get_worker, t, u,
        send_to_worker, f,
      )

  -- The state after it.
  abbrev after : RtcServer → RtcMsg → List RtcMsg → LockFreeQueue RtcMsg → RtcServer
  after s msg rest q = record s {
    q_msg = rest;
    workers =
        set_elem (compute_crc32 msg.stream_name % s.worker_num)
          (produce (record msg { certificate = s.certificate }) q) s.workers;
  }

  after-IsRouting :
      (s : RtcServer) (msg : RtcMsg) (rest : List RtcMsg) (q : LockFreeQueue RtcMsg)
      → IsRouting s
      → get_elem? s.workers (compute_crc32 msg.stream_name % s.worker_num) ≡ some q
      → IsRouting (after s msg rest q)
  after-IsRouting s msg rest q h f =
      let i = compute_crc32 msg.stream_name % s.worker_num in
      let new = produce (record msg { certificate = s.certificate }) q in
      record {
        some_worker = h.some_worker;
        all_workers = length-set_elem i new s.workers ∙ h.all_workers;
        linked = λ j q' e. elim (set_elem-cases i j new q' s.workers e) [
          | inl k ↦ subst IsLinked k (produce-IsLinked _ q (h.linked i q f))
          | inr old ↦ h.linked j q' old
        ];
        certified = h.certified;
      }

  -- No message is left, and worker `i` got these behind those of its queue `q`.
  abbrev pub Delivers : RtcServer → ℕ → LockFreeQueue RtcMsg → List RtcMsg → Type 0
  Delivers s i q msgs =
      (s.q_msg ≡ [])
      × ((q' : LockFreeQueue RtcMsg) × (get_elem? s.workers i ≡ some q')
          × (pending q' ≡ pending q ++ msgs))

  -- With a valid certificate, as many workers as configured, at least one, and well-formed queues:
  -- as many calls as there are messages empty the server's queue, and each worker has, behind what
  -- was pending, exactly the messages whose stream's CRC-32 leaves its number, in the order in which
  -- they were sent.
  pub process_all-routed :
      (msgs : List RtcMsg) (s : RtcServer) (i : ℕ) (q : LockFreeQueue RtcMsg)
      → IsRouting s
      → s.q_msg ≡ msgs
      → get_elem? s.workers i ≡ some q
      → Delivers (process_all (length msgs) s) i q (routed s.worker_num s.certificate i msgs)
  unfolding process_all
  process_all-routed [] s i q h e f = (e, (q, f, sym (append-nil (pending q))))
  process_all-routed (msg ∷ rest) s i q h e f =
      let j = compute_crc32 msg.stream_name % s.worker_num in
      let some_worker = h.some_worker in
      let all_workers = h.all_workers in
      let small : j < s.worker_num = mod-lt (compute_crc32 msg.stream_name) some_worker in
      let within : j < length s.workers = omega arith in
      let (p, g) = some_elem j s.workers within in
      let msg' = record msg { certificate = s.certificate } in
      let next = after s msg rest p in
      let h' = after-IsRouting s msg rest p h g in
      subst
        (λ s'.
          Delivers (process_all (length rest) s') i q
            (routed s.worker_num s.certificate i (msg ∷ rest)))
        (sym (routes s msg rest p h e g))
        (elim (Bool-cases (j == i)) [
          | inl t ↦
              let k : j ≡ i = ground arith in
              let same : some p ≡ some q = sym g ∙ ap (get_elem? s.workers) k ∙ f in
              let here : get_elem? next.workers i ≡ some (produce msg' p) =
                ap (get_elem? next.workers) (sym k)
                ∙ get_elem?-set_elem j (produce msg' p) s.workers within in
              let (done, (q', there, order)) =
                process_all-routed rest next i (produce msg' p) h' refl here in
              rw t (
                done,
                (
                  q',
                  there,
                  order
                      ∙ ap (λ l. l ++ routed s.worker_num s.certificate i rest)
                          (pending-produce msg' p (h.linked j p g))
                      ∙ append_assoc (pending p) (msg' ∷ []) _
                      ∙ ap (λ o. pending_of o ++ msg' ∷ routed s.worker_num s.certificate i rest)
                          same,
                ),
              )
          | inr t ↦
              let here : get_elem? next.workers i ≡ some q =
                get_elem?-set_elem_other i j (produce msg' p) s.workers (λ k. ground arith) ∙ f in
              rw t (process_all-routed rest next i q h' refl here)
        ])

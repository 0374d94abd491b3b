-- ===== src/Server/Replies.antt =====
-- Of server/signaling_worker.cpp: `_write_reply` sends the replies in their order, whatever parts
-- of them the socket takes; and it does not come back while the socket takes nothing.
use web_rtcserver.Prelude.{
  ℕ, zero, suc, ◌+◌, ◌-◌, ◌^◌, ◌%◌, ◌<◌, ◌↔◌, Bool, ◌≤◌, ◌≡◌, ◌≢◌, refl, sym, ap, ◌∙◌, false, List,
  [], ◌∷◌, ◌++◌, Option, none, some, arith, inl, inr, Bool-cases, length, length-append,
  length-replicate, length-drop, take, drop, take-append-drop, replicate, map, get_elem?, leb, ◌==◌,
  append_assoc, length-take_of_le, drop-drop, List-cases, take_enough, leb→le,
}
use native.Mathlib.Decide.{dec_lt}
use web_rtcserver.Prelude.Heap.{object_at}
use web_rtcserver.Server.Xhead.{xhead_size, set_body_len, set_le32}
use web_rtcserver.Server.Messages.{RtcMsg, Json, Member, JsonField, max_res_buf}
use web_rtcserver.Server.Requests.{Reply, TcpConnection, make_reply}
use web_rtcserver.Server.Worker.{
  SignalingWorker, loops, is_negative, slice, emptied, unfinished, write_loop, end_write,
  write_reply,
}

abbrev slices : List Reply → List (Option ℕ)
slices [] = []
slices (r ∷ rs) = slice r ++ slices rs

-- What is still to be sent of some replies, when so much of the first is sent.
abbrev unsent_of : ℕ → List Reply → List (Option ℕ)
unsent_of n [] = []
unsent_of n (r ∷ rs) = drop n (slice r) ++ slices rs

abbrev pub unsent : TcpConnection → List (Option ℕ)
unsent c = unsent_of c.cur_resp_pos c.reply_list

length-slice : (r : Reply) → length (slice r) ≡ r.reply_size
unfolding slice
length-slice r = length-take_of_le r.reply_size _ (
    omega (
      arith,
      length-append (map some r.text) (replicate r.reply_size none),
      length-replicate {A = Option ℕ} r.reply_size none,
    ))

unsent_zero : (rs : List Reply) → unsent_of 0 rs ≡ slices rs
unsent_zero [] = refl
unsent_zero (r ∷ rs) = refl

-- A step writes what is sent no more, the rest of a reply or a part of it.
written_rest :
    (n pos : ℕ) (r : Reply)
    → r.reply_size ≤ n + pos
    → take n (drop pos (slice r)) ≡ drop pos (slice r)
written_rest n pos r h =
    take_enough n (drop pos (slice r)) (omega (arith, length-drop pos (slice r), length-slice r))

written_part :
    (n pos : ℕ) (xs : List (Option ℕ)) → take n (drop pos xs) ++ drop (pos + n) xs ≡ drop pos xs
written_part n pos xs =
    let e : n + pos ≡ pos + n = omega arith in
    ap (λ ys. take n (drop pos xs) ++ ys) (ap (λ m. drop m xs) (sym e) ∙ sym (drop-drop n pos xs))
    ∙ take-append-drop n (drop pos xs)

-- However the socket takes the bytes: what the loop of `_write_reply` writes, followed by what is
-- unsent after it, is what was unsent before; and if it ends with the list empty, nothing is unsent.
pub write_loop-unsent :
    (results : List (Option ℕ)) (c : TcpConnection)
    → ((write_loop results c).1 ++ unsent (write_loop results c).0 ≡ unsent c)
      × ((write_loop results c).2 ≡ emptied → unsent (write_loop results c).0 ≡ [])
unfolding write_loop
write_loop-unsent [] c = elim (List-cases c.reply_list) [
  | inl e ↦ simp (write_loop, e) (refl, λ h. refl)
  | inr (r, rs, e) ↦ simp (write_loop, e) (refl, λ h. ground arith)
]
write_loop-unsent (none ∷ results) c = elim (List-cases c.reply_list) [
  | inl e ↦ simp (write_loop, e) (refl, λ h. refl)
  | inr (r, rs, e) ↦ simp (write_loop, e) (refl, λ h. ground arith)
]
write_loop-unsent (some n ∷ results) c = elim (List-cases c.reply_list) [
  | inl e ↦ simp (write_loop, e) (refl, λ h. refl)
  | inr (r, rs, e) ↦ elim (Bool-cases (n == 0)) [
    | inl z ↦
        let ih = write_loop-unsent results c in
        simp (write_loop, e, z) (ih.0 ∙ ap (unsent_of c.cur_resp_pos) e, ih.1)
    | inr nz ↦
        let pos = c.cur_resp_pos in
        let bytes = take n (drop pos (slice r)) in
        elim (Bool-cases (leb r.reply_size (n + pos))) [
          | inl all ↦
              let ih = write_loop-unsent results (record c { reply_list = rs; cur_resp_pos = 0 }) in
              simp (write_loop, e, nz, all)
                (
                  append_assoc bytes _ _
                      ∙ ap (λ ys. bytes ++ ys) (ih.0 ∙ unsent_zero rs)
                      ∙ ap (λ ys. ys ++ slices rs) (written_rest n pos r (leb→le _ _ all)),
                  ih.1,
                )
          | inr part ↦
              let c' = record c { reply_list = r ∷ rs; cur_resp_pos = pos + n } in
              let ih = write_loop-unsent results c' in
              simp (write_loop, e, nz, part)
                (
                  append_assoc bytes _ _
                      ∙ ap (λ ys. bytes ++ ys) ih.0
                      ∙ sym (append_assoc bytes (drop (pos + n) (slice r)) (slices rs))
                      ∙ ap (λ ys. ys ++ slices rs) (written_part n pos (slice r)),
                  ih.1,
                )
        ]
  ]
]

zeros :
    (n : ℕ) (c : TcpConnection)
    → c.reply_list ≢ []
    → write_loop (replicate n (some 0)) c ≡ (c, [], unfinished)
unfolding write_loop
zeros zero c h = elim (List-cases c.reply_list) [
  | inl e ↦ absurd (h e)
  | inr (r, rs, e) ↦ simp (write_loop, e)
]
zeros (suc n) c h = elim (List-cases c.reply_list) [
  | inl e ↦ absurd (h e)
  | inr (r, rs, e) ↦ simp (write_loop, e) (zeros n c h)
]

-- While the socket of an open connection with replies to send takes no bytes, `_write_reply` does
-- not come back, however often it tries.
pub write_reply_spins :
    (n now fd at : ℕ) (w : SignalingWorker) (c : TcpConnection)
    → is_negative fd ≡ false
    → fd ≢ 0
    → get_elem? w.conns fd ≡ some (some at)
    → object_at at w.heap ≡ some c
    → c.reply_list ≢ []
    → write_reply (replicate n (some 0)) now fd w ≡ loops
unfolding write_reply end_write
write_reply_spins n now fd at w c sign some_fd held there some_reply =
    let t : (fd == 0) ≡ false = ground arith in
    simp (write_reply, sign, t, held, there, zeros n c some_reply)

-- The slice of a response is longer than the buffer behind it exactly if the length of the JSON
-- text, kept in 32 bits, is more than 4096, and its sum with the 36 bytes of the header still fits
-- 32 bits; where the header is complete.
pub make_reply_overread :
    (json : Json) (notified : RtcMsg → Bool) (self at : ℕ) (header : List ℕ)
    (fields : List (Member × JsonField))
    → length header ≡ xhead_size
    → (length (make_reply json notified self at header fields).text
        < (make_reply json notified self at header fields).reply_size)
      ↔ ((max_res_buf < length (json.write_string fields) % 2 ^ 32)
          × (xhead_size + length (json.write_string fields) % 2 ^ 32 < 2 ^ 32))
unfolding make_reply set_body_len set_le32
make_reply_overread json notified self at header fields h =
    let text = json.write_string fields in
    let m = length text % 2 ^ 32 in
    let head : take xhead_size header ≡ header = take_enough xhead_size header (omega arith) in
    let first : length (take 32 header) ≡ 32 = length-take_of_le 32 header (omega arith) in
    rw head (
      let body = take (max_res_buf - 1) text in
      let size = length-append (take 32 header) (set_le32 m) in
      let most = length-append (take 32 header ++ set_le32 m) body in
      let all = length-append (take 32 header ++ set_le32 m ++ body) (0 ∷ []) in
      elim (dec_lt (length text) max_res_buf) [
        | yes less ↦
            let whole = ap length (take_enough (max_res_buf - 1) text (omega arith)) in omega arith
        | no more ↦ let cut = length-take_of_le (max_res_buf - 1) text (omega arith) in omega arith
      ])

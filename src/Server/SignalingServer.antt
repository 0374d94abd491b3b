-- ===== src/Server/SignalingServer.antt =====
-- server/signaling_server.cpp: the accepted connections are dealt out to the workers in turn.
use web_rtcserver.Prelude.{
  ℕ, suc, ◌+◌, ◌%◌, ◌<◌, ◌≡◌, List, [], ◌∷◌, ◌++◌, arith, sym, ap, ◌∙◌, append-nil, append_assoc,
  Bool-cases, inl, inr, leb, if◌then◌else◌,
}
use native.Mathlib.Nat.{mod-lt, suc-mod, mod_self, mod-eq_of_lt}

-- The workers by number, `_next_worker_index`, and the file descriptors handed to the workers, each
-- with the number of its worker, in order.
pub record SignalingServer : Type 0 where
  pub worker_count : ℕ
  pub next_worker_index : ℕ
  pub handed : List (ℕ × ℕ)

-- `_dispatch_new_conn`.
unfoldable pub dispatch_new_conn : ℕ → SignalingServer → SignalingServer
dispatch_new_conn fd s =
    let index = s.next_worker_index in
    let next = s.next_worker_index + 1 in
    record s {
      next_worker_index = if leb s.worker_count next then 0 else next;
      handed = s.handed ++ (index, fd) ∷ [];
    }

unfoldable pub dispatch_all : List ℕ → SignalingServer → SignalingServer
unfolding dispatch_new_conn
dispatch_all [] s = s
dispatch_all (fd ∷ fds) s = dispatch_all fds (dispatch_new_conn fd s)

-- The connections from the `i`th on, with the worker that takes each in turn.
abbrev pub in_turn : ℕ → ℕ → List ℕ → List (ℕ × ℕ)
in_turn n i [] = []
in_turn n i (fd ∷ fds) = (i % n, fd) ∷ in_turn n (i + 1) fds

next_turn : (n i : ℕ) → 0 < n → (if leb n (i % n + 1) then 0 else i % n + 1) ≡ (i + 1) % n
next_turn n i h =
    let small = mod-lt i h in
    let e : i + 1 ≡ suc i = omega arith in
    elim (Bool-cases (leb n (i % n + 1))) [
      | inl t ↦
          let last : suc (i % n) ≡ n = ground arith in
          rw (t, e, suc-mod i n, last) (sym (mod_self n))
      | inr t ↦
          let more : suc (i % n) < n = ground arith in
          rw (t, e, suc-mod i n, mod-eq_of_lt more) (omega arith)
    ]

-- With at least one worker, the connections are handed to the workers strictly in turn: the `k`th
-- goes to the worker whose number is the remainder of `i + k` by their count, where `i` stands for
-- the first.
pub dispatch_all-in_turn :
    (fds : List ℕ) (s : SignalingServer) (i : ℕ)
    → 0 < s.worker_count
    → s.next_worker_index ≡ i % s.worker_count
    → (dispatch_all fds s).handed ≡ s.handed ++ in_turn s.worker_count i fds
unfolding dispatch_all dispatch_new_conn
dispatch_all-in_turn [] s i some_worker e = sym (append-nil s.handed)
dispatch_all-in_turn (fd ∷ fds) s i some_worker e =
    dispatch_all-in_turn fds (dispatch_new_conn fd s) (i + 1) some_worker
      (rw e (next_turn s.worker_count i some_worker))
    ∙ append_assoc s.handed ((s.next_worker_index, fd) ∷ []) (in_turn s.worker_count (i + 1) fds)
    ∙ ap (λ j. s.handed ++ (j, fd) ∷ in_turn s.worker_count (i + 1) fds) e

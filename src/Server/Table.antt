-- ===== src/Server/Table.antt =====
-- Of server/signaling_worker.cpp: the table of connections points to living connections only, and
-- where it is used out of bounds or through a null pointer.
use web_rtcserver.Prelude.{
  ℕ, zero, suc, ◌-◌, ◌*◌, ◌≤◌, ◌≡◌, ◌≢◌, ◌↔◌, refl, sym, ap, ◌∙◌, true, false, List, [], ◌∷◌, ◌++◌,
  Option, none, some, arith, ◌⊎◌, inl, inr, Bool-cases, length, length-append, length-replicate,
  take, take_enough, List-cases, leb→le, replicate, get_elem?, ltb, leb, ◌==◌,
}
use web_rtcserver.Prelude.Heap.{
  object_at, store, set_elem, object_at-free_other, object_at-store_other, object_at-store,
}
use web_rtcserver.Server.Requests.{TcpConnection, new_connection}
use web_rtcserver.Server.Worker.{
  SignalingWorker, Outcome, returns, faults, loops, is_negative, close_conn, resize, put_conn,
  new_conn,
}

-- Each entry of the table points to a connection that is alive, and is of that file descriptor.
pub record IsTable (w : SignalingWorker) : Type 0 where
  pub held :
      (fd at : ℕ)
      → get_elem? w.conns fd ≡ some (some at)
      → (c : TcpConnection) × (object_at at w.heap ≡ some c) × (c.fd ≡ fd)

set_none :
    (i j at : ℕ) (conns : List (Option ℕ))
    → get_elem? (set_elem j none conns) i ≡ some (some at)
    → (i ≢ j) × (get_elem? conns i ≡ some (some at))
set_none i j at [] h = ground arith
set_none zero zero at (x ∷ xs) h = ground arith
set_none zero (suc j) at (x ∷ xs) h = (λ e. omega arith, h)
set_none (suc i) zero at (x ∷ xs) h = (λ e. omega arith, h)
set_none (suc i) (suc j) at (x ∷ xs) h =
    let (n, e) = set_none i j at xs h in (λ k. n (omega arith), e)

set_some :
    (i j a b : ℕ) (conns : List (Option ℕ))
    → get_elem? (set_elem j (some b) conns) i ≡ some (some a)
    → ((i ≡ j) × (a ≡ b)) ⊎ (get_elem? conns i ≡ some (some a))
set_some i j a b [] h = ground arith
set_some zero zero a b (x ∷ xs) h = inl (refl, ground (arith, h))
set_some zero (suc j) a b (x ∷ xs) h = inr h
set_some (suc i) zero a b (x ∷ xs) h = inr h
set_some (suc i) (suc j) a b (x ∷ xs) h = elim (set_some i j a b xs h) [
  | inl (e, f) ↦ inl (ap suc e, f)
  | inr e ↦ inr e
]

only_none : (n i a : ℕ) → get_elem? (replicate {A = Option ℕ} n none) i ≢ some (some a)
only_none zero i a h = ground arith
only_none (suc n) zero a h = ground arith
only_none (suc n) (suc i) a h = only_none n i a h

resized :
    (n k i a : ℕ) (conns : List (Option ℕ))
    → get_elem? (take n conns ++ replicate k none) i ≡ some (some a)
    → get_elem? conns i ≡ some (some a)
resized zero k i a conns h = absurd (only_none k i a h)
resized (suc n) k i a [] h = absurd (only_none k i a h)
resized (suc n) k zero a (x ∷ xs) h = h
resized (suc n) k (suc i) a (x ∷ xs) h = resized n k i a xs h

fd_of : Option TcpConnection → ℕ
fd_of none = 0
fd_of (some c) = c.fd

same_object :
    (heap : List (ℕ × TcpConnection)) (a b : ℕ) (c d : TcpConnection)
    → object_at a heap ≡ some c
    → object_at b heap ≡ some d
    → a ≡ b
    → c.fd ≡ d.fd
unfolding fd_of
same_object heap a b c d e f k = ap fd_of (sym e ∙ ap (λ x. object_at x heap) k ∙ f)

pub close_conn-IsTable :
    (w : SignalingWorker) (at : ℕ) (c d : TcpConnection)
    → IsTable w
    → object_at at w.heap ≡ some c
    → d.fd ≡ c.fd
    → IsTable (close_conn at d w)
unfolding close_conn
close_conn-IsTable w at c d h there same = record {
  held = λ fd' at' e.
      let (other, before) = set_none fd' d.fd at' w.conns e in
      let (c', there', its_fd) = h.held fd' at' before in
      let apart : at' ≢ at =
        λ k. other (sym its_fd ∙ same_object w.heap at' at c' c there' there k ∙ sym same) in
      (c', object_at-free_other at' at w.heap apart ∙ there', its_fd);
}

pub store-IsTable :
    (w : SignalingWorker) (at : ℕ) (c d : TcpConnection)
    → IsTable w
    → object_at at w.heap ≡ some c
    → d.fd ≡ c.fd
    → IsTable (record w { heap = store at d w.heap })
store-IsTable w at c d h there same = record {
  held = λ fd at' e.
      let (c', there', its_fd) = h.held fd at' e in
      let put : at' ≡ at
          → (c' : TcpConnection) × (object_at at' (store at d w.heap) ≡ some c') × (c'.fd ≡ fd) =
        λ k. (
          d,
          ap (λ a. object_at a (store at d w.heap)) k ∙ object_at-store at d w.heap,
          same ∙ sym (same_object w.heap at' at c' c there' there k) ∙ its_fd,
        ) in
      elim (Bool-cases (at' == at)) [
        | inl t ↦ put (ground (arith, t))
        | inr t ↦ (c', object_at-store_other at' at d w.heap (λ k. ground arith) ∙ there', its_fd)
      ];
}

-- The entries of a table with a new connection.
put-IsTable :
    (w : SignalingWorker) (fd at : ℕ) (c : TcpConnection) (conns : List (Option ℕ))
    → IsTable w
    → object_at at w.heap ≡ none
    → c.fd ≡ fd
    → ((i a : ℕ) → get_elem? conns i ≡ some (some a) → get_elem? w.conns i ≡ some (some a))
    → IsTable (record w { conns = set_elem fd (some at) conns; heap = store at c w.heap })
put-IsTable w fd at c conns h fresh same within = record {
  held = λ i a e. elim (set_some i fd a at conns e) [
    | inl (k, l) ↦
        (c, ap (λ x. object_at x (store at c w.heap)) l ∙ object_at-store at c w.heap, same ∙ sym k)
    | inr old ↦
        let (c', there, its_fd) = h.held i a (within i a old) in
        (
          c',
          object_at-store_other a at c w.heap (λ k. ground (arith, there, fresh, k)) ∙ there,
          its_fd,
        )
  ];
}

-- A table is sound after a handler that returns.
abbrev pub Sound : Outcome → Type 0
Sound (returns w) = IsTable w
Sound faults = Unit
Sound loops = Unit

put_conn-Sound :
    (w : SignalingWorker) (fd at : ℕ) (c : TcpConnection) (conns : List (Option ℕ))
    → IsTable w
    → object_at at w.heap ≡ none
    → c.fd ≡ fd
    → ((i a : ℕ) → get_elem? conns i ≡ some (some a) → get_elem? w.conns i ≡ some (some a))
    → Sound (put_conn fd at (record w { conns = conns; heap = store at c w.heap }))
unfolding put_conn
put_conn-Sound w fd at c conns h fresh same within = elim (Bool-cases (ltb fd (length conns))) [
  | inl t ↦ simp (t) (put-IsTable w fd at c conns h fresh same within)
  | inr t ↦ simp (t) tt
]

pub new_conn-Sound :
    (at now fd : ℕ) (w : SignalingWorker)
    → IsTable w
    → object_at at w.heap ≡ none
    → Sound (new_conn at now fd w)
unfolding new_conn resize new_connection
new_conn-Sound at now fd w h fresh =
    let c = record (new_connection fd) { last_interaction = now } in
    elim (Bool-cases (is_negative fd)) [
      | inl t ↦ simp (new_conn, t) h
      | inr t ↦ elim (Bool-cases (leb (length w.conns) fd)) [
        | inl u ↦
            simp (new_conn, t, u)
              (put_conn-Sound w fd at c (resize (fd * 2) w.conns) h fresh refl
                (λ i a e. resized (fd * 2) (fd * 2 - length w.conns) i a w.conns e))
        | inr u ↦ simp (new_conn, t, u) (put_conn-Sound w fd at c w.conns h fresh refl (λ i a e. e))
      ]
    ]

length-resize : (n : ℕ) (conns : List (Option ℕ)) → length conns ≤ n → length (resize n conns) ≡ n
unfolding resize
length-resize n conns h = rw (take_enough n conns h) (
    omega (
      arith,
      length-append conns (replicate (n - length conns) none),
      length-replicate {A = Option ℕ} (n - length conns) none,
    ))

-- `_new_conn`, on a file descriptor that is not negative, writes out of the bounds of the table
-- exactly if it is 0 and the table is empty: the table is then resized to no entries.
pub new_conn-faults :
    (at now fd : ℕ) (w : SignalingWorker)
    → is_negative fd ≡ false
    → (new_conn at now fd w ≡ faults) ↔ ((fd ≡ 0) × (w.conns ≡ []))
unfolding new_conn put_conn resize
new_conn-faults at now fd w t =
    let c = record (new_connection fd) { last_interaction = now } in
    elim (Bool-cases (leb (length w.conns) fd)) [
      | inl u ↦
          let len = length-resize (fd * 2) w.conns (omega (arith, leb→le _ _ u)) in
          simp (new_conn, t, u, put_conn, len)
            (λ e. ground (arith, e, List-cases w.conns), λ e. ground (arith, e.0))
      | inr u ↦
          let v : ltb fd (length w.conns) ≡ true = ground arith in
          simp (new_conn, t, u, put_conn, v) (λ e. ground (arith, e), λ e. ground (arith, e.1))
    ]

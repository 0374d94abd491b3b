-- ===== src/Base/LockFreeQueue.antt =====
-- base/lock_free_queue.h: a linked list with one consumed node kept as divider, for one producer
-- and one consumer. Each call is one step here; the nodes are listed from `first` to `last`.
use web_rtcserver.Prelude.{
  ℕ, zero, suc, ◌+◌, ◌-◌, ◌≤◌, ◌<◌, ◌≡◌, refl, ap, ◌∙◌, Bool, true, false, not, List, [], ◌∷◌, ◌++◌,
  Option, none, some, arith, length, length-append, drop, length-drop, drop-append_le, drop_nil,
  drop-drop, get_elem?, ◌==◌, if◌then◌else◌, is_empty, List-cases, inl, inr,
}
use native.Mathlib.Decide.{dec_lt}
use mathlib.Core.Path.{ap₂}

pub record LockFreeQueue {ℓ} (T : Type ℓ) : Type ℓ where
  -- The values of the nodes from `first` on, and the places of `divider` and of `last` among them.
  pub nodes : List T
  pub divider : ℕ
  pub last : ℕ
  pub count : ℕ

module _ {ℓ} {T : Type ℓ} where
  -- The constructor: one node, which is first, divider and last.
  unfoldable pub new_queue : T → LockFreeQueue T
  new_queue t = record { nodes = t ∷ []; divider = 0; last = 0; count = 0 }

  -- `while (first != divider)`: the nodes before the divider are freed. Places count from `first`,
  -- so the other two move down with each node.
  unfoldable pub free_consumed : ℕ → List T → List T
  free_consumed zero nodes = nodes
  free_consumed (suc n) [] = []
  free_consumed (suc n) (x ∷ nodes) = free_consumed n nodes

  unfoldable pub produce : T → LockFreeQueue T → LockFreeQueue T
  unfolding free_consumed
  produce t q = record {
    nodes = free_consumed q.divider (q.nodes ++ t ∷ []);
    divider = 0;
    last = q.last + 1 - q.divider;
    count = q.count + 1;
  }

  -- `false` leaves the result as it was: `none`. A `divider->next` that is no node cannot occur
  -- in a well-formed queue.
  unfoldable pub consume : LockFreeQueue T → LockFreeQueue T × Option T
  consume q =
      if not (q.divider == q.last)
      then (
        record q { divider = q.divider + 1; count = q.count - 1 },
        get_elem? q.nodes (q.divider + 1),
      )
      else (q, none)

  unfoldable pub empty : LockFreeQueue T → Bool
  empty q = q.count == 0

  -- Declared to return a `bool`.
  unfoldable pub size : LockFreeQueue T → Bool
  size q = not (q.count == 0)

  -- What is still to be consumed, oldest first.
  abbrev pub pending : LockFreeQueue T → List T
  pending q = drop (q.divider + 1) q.nodes

  pub record IsLinked (q : LockFreeQueue T) : Type 0 where
    pub ends : length q.nodes ≡ q.last + 1
    pub order : q.divider ≤ q.last
    pub counted : q.count ≡ q.last - q.divider

  free_consumed-drop : (n : ℕ) (xs : List T) → free_consumed n xs ≡ drop n xs
  unfolding free_consumed
  free_consumed-drop zero xs = refl
  free_consumed-drop (suc n) [] = refl
  free_consumed-drop (suc n) (x ∷ xs) = free_consumed-drop n xs

  drop_all : (n : ℕ) (xs : List T) → length xs ≤ n → drop n xs ≡ []
  drop_all n [] h = drop_nil n
  drop_all zero (x ∷ xs) h = absurd (omega arith)
  drop_all (suc n) (x ∷ xs) h = drop_all n xs (omega arith)

  get_elem?-drop :
      (n : ℕ) (xs : List T)
      → n < length xs
      → (x : T) × (get_elem? xs n ≡ some x) × (drop n xs ≡ x ∷ drop (n + 1) xs)
  get_elem?-drop n [] h = absurd (omega arith)
  get_elem?-drop zero (x ∷ xs) h = (x, refl, refl)
  get_elem?-drop (suc n) (x ∷ xs) h =
      let e : suc n + 1 ≡ suc (n + 1) = omega arith in rw e (get_elem?-drop n xs (omega arith))

  pub new_queue-IsLinked : (t : T) → IsLinked (new_queue t)
  unfolding new_queue
  new_queue-IsLinked t = omega arith

  pub produce-IsLinked : (t : T) (q : LockFreeQueue T) → IsLinked q → IsLinked (produce t q)
  unfolding produce
  produce-IsLinked t q h = record {
    ends = rw (free_consumed-drop q.divider (q.nodes ++ t ∷ [])) (
        omega (
          arith,
          length-drop q.divider (q.nodes ++ t ∷ []),
          length-append q.nodes (t ∷ []),
          h.ends,
          h.order,
        ));
    order = omega arith;
    counted = omega (arith, h.counted, h.order);
  }

  pub consume-IsLinked : (q : LockFreeQueue T) → IsLinked q → IsLinked (consume q).0
  unfolding consume
  consume-IsLinked q h = ground arith

  pub pending-produce :
      (t : T) (q : LockFreeQueue T) → IsLinked q → pending (produce t q) ≡ pending q ++ t ∷ []
  unfolding produce
  pending-produce t q h = rw (free_consumed-drop q.divider (q.nodes ++ t ∷ [])) (
      drop-drop 1 q.divider (q.nodes ++ t ∷ [])
      ∙ ap (λ n. drop n (q.nodes ++ t ∷ [])) (omega arith)
      ∙ drop-append_le (q.divider + 1) q.nodes (t ∷ []) (omega (arith, h.ends, h.order)))

  -- The head of the abstract queue is what a consumer gets.
  abbrev pub dequeue : List T → List T × Option T
  dequeue [] = ([], none)
  dequeue (x ∷ xs) = (xs, some x)

  pub pending-consume :
      (q : LockFreeQueue T)
      → IsLinked q
      → (pending (consume q).0, (consume q).1) ≡ dequeue (pending q)
  unfolding consume
  pending-consume q h = elim (dec_lt q.divider q.last) [
    | yes more ↦
        let (x, e, d) = get_elem?-drop (q.divider + 1) q.nodes (omega (arith, h.ends)) in
        let t : (q.divider == q.last) ≡ false = ground arith in rw (consume, t, e, d)
    | no less ↦
        let t : (q.divider == q.last) ≡ true = ground (arith, h.order) in
        let d = drop_all (q.divider + 1) q.nodes (omega (arith, h.ends, h.order)) in
        rw (consume, t, d)
  ]

  -- A run of the queue, and of the list that it stands for: `some t` is `produce`, `none` is
  -- `consume`; the results of the consumers, in order.
  unfoldable pub run : List (Option T) → LockFreeQueue T → List (Option T)
  run [] q = []
  run (none ∷ ops) q = (consume q).1 ∷ run ops (consume q).0
  run (some t ∷ ops) q = run ops (produce t q)

  unfoldable pub run_list : List (Option T) → List T → List (Option T)
  run_list [] xs = []
  run_list (none ∷ ops) xs = (dequeue xs).1 ∷ run_list ops (dequeue xs).0
  run_list (some t ∷ ops) xs = run_list ops (xs ++ t ∷ [])

  -- From any well-formed state, every sequence of calls gives its consumers what a first-in first-
  -- out list of the pending values gives them.
  pub run-run_list :
      (ops : List (Option T)) (q : LockFreeQueue T)
      → IsLinked q
      → run ops q ≡ run_list ops (pending q)
  unfolding run run_list
  run-run_list [] q h = refl
  run-run_list (none ∷ ops) q h =
      let e = pending-consume q h in
      let ih = run-run_list ops (consume q).0 (consume-IsLinked q h) in
      ap₂ ◌∷◌ (ap (λ p. p.1) e) (ih ∙ ap (λ p. run_list ops p.0) e)
  run-run_list (some t ∷ ops) q h =
      run-run_list ops (produce t q) (produce-IsLinked t q h)
      ∙ ap (run_list ops) (pending-produce t q h)

  -- In a well-formed queue, a `produce` leaves one node besides those of the pending values,
  -- however many were consumed.
  pub produce_frees :
      (t : T) (q : LockFreeQueue T)
      → IsLinked q
      → length (produce t q).nodes ≡ length (pending (produce t q)) + 1
  unfolding produce
  produce_frees t q h =
      let h' = produce-IsLinked t q h in
      omega (arith, length-drop ((produce t q).divider + 1) (produce t q).nodes, h'.ends, h'.order)

  -- In a well-formed queue, `empty` says whether no value is pending, and `size` only whether one
  -- is, however many there are.
  pub size-pending :
      (q : LockFreeQueue T)
      → IsLinked q
      → (empty q ≡ is_empty (pending q)) × (size q ≡ not (is_empty (pending q)))
  unfolding size empty
  size-pending q h =
      let n = length-drop (q.divider + 1) q.nodes in
      let c : q.count ≡ length (pending q) = omega (arith, h.ends, h.counted, h.order) in
      elim (List-cases (pending q)) [
        | inl e ↦ let none_left : q.count ≡ 0 = c ∙ ap length e in rw (e, none_left) (refl, refl)
        | inr (x, xs, e) ↦
            let t : (q.count == 0) ≡ false = ground (arith, c ∙ ap length e) in
            rw (e, t) (refl, refl)
      ]

-- ===== src/Ice/Reachable.antt =====
-- The states that the controller of ice/ice_controller.cpp goes through in the hands of its channel.
use web_rtcserver.Prelude.{
  ℕ, ◌≡◌, ◌≢◌, ◌≤◌, ◌⊎◌, refl, sym, ap, ◌∙◌, ◌&&◌, List, [], ◌∷◌, Option, none, some, arith,
  Bool-cases, inl, inr, leb, if_intro, if◌then◌else◌,
}
use web_rtcserver.Ice.Connection.{writable}
use web_rtcserver.Ice.Controller.{
  Heap, IceController, new_controller, add_connection, on_connection_destroyed, contains,
  mark_connection_pinged, start_round, sort_insert, sort, sort_and_switch_connection, goes_before,
  is_pingable, more_pingable, find_conn, any_connection, find_next_in_round,
  find_next_pingable_connection, is_connection_past_ping_interval, select_connection_to_ping,
  switch_to,
}
use web_rtcserver.Ice.Rounds.{
  count, count-append, count-erase_first, IsPartition, add_connection-IsPartition,
  on_connection_destroyed-IsPartition, mark_connection_pinged-IsPartition, start_round-IsPartition,
}

-- A call that gives a connection, and what the channel does with it.
abbrev pub marked : Option ℕ × IceController → IceController
marked (none, c) = c
marked (some x, c) = mark_connection_pinged x c

abbrev pub switched : Option ℕ × IceController → IceController
switched (none, c) = c
switched (some x, c) = record c { selected_connection = some x }

abbrev pub asked : Heap → ℕ → ℕ → IceController → Option ℕ × IceController
asked heap now last_ping_sent_ms c =
    let (result, found) = select_connection_to_ping heap now last_ping_sent_ms c in
    (result.conn, found)

-- The calls of the channel: a new connection is at an address of its own; the connection that is
-- destroyed is not the selected one; what `select_connection_to_ping` gives is marked as pinged, and
-- what `sort_and_switch_connection` gives is selected.
pub data Reaches : IceController → Type 0 where
  created : Reaches new_controller
  adds :
      (conn : ℕ) (c : IceController)
      → Reaches c
      → count conn c.connections ≡ 0
      → Reaches (add_connection conn c)
  destroys :
      (conn : ℕ) (c : IceController)
      → Reaches c
      → c.selected_connection ≢ some conn
      → Reaches (on_connection_destroyed conn c)
  pings :
      (heap : Heap) (now last_ping_sent_ms : ℕ) (c : IceController)
      → Reaches c
      → Reaches (marked (asked heap now last_ping_sent_ms c))
  sorts :
      (heap : Heap) (c : IceController)
      → Reaches c
      → Reaches (switched (sort_and_switch_connection heap c))

-- The sets partition the connections, and the selected connection is one of them.
pub record IsKept (c : IceController) : Type 0 where
  pub partition : IsPartition c
  pub selected_there : (s : ℕ) → c.selected_connection ≡ some s → count s c.connections ≡ 1

-- The connection of a call's result is one of the controller that it leaves.
record IsFound (r : Option ℕ × IceController) : Type 0 where
  kept : IsKept r.1
  there : (x : ℕ) → r.0 ≡ some x → count x r.1.connections ≡ 1

count-sort_insert :
    (heap : Heap) (y x : ℕ) (xs : List ℕ) → count y (sort_insert heap x xs) ≡ count y (x ∷ xs)
unfolding sort_insert
count-sort_insert heap y x [] = refl
count-sort_insert heap y x (z ∷ zs) = elim (Bool-cases (goes_before (heap z) (heap x))) [
  | inl e ↦ rw e (omega (arith, count-sort_insert heap y x zs))
  | inr e ↦ rw e refl
]

count-sort : (heap : Heap) (y : ℕ) (xs : List ℕ) → count y (sort heap xs) ≡ count y xs
unfolding sort
count-sort heap y [] = refl
count-sort heap y (x ∷ xs) =
    omega (arith, count-sort_insert heap y x (sort heap xs), count-sort heap y xs)

mark-IsKept : (r : Option ℕ × IceController) → IsFound r → IsKept (marked r)
unfolding mark_connection_pinged
mark-IsKept (none, c) h = h.kept
mark-IsKept (some x, c) h = record {
  partition = mark_connection_pinged-IsPartition x c h.kept.partition (h.there x refl);
  selected_there =
      if_intro
        (λ (d : IceController).
          (s : ℕ) → d.selected_connection ≡ some s → count s d.connections ≡ 1)
        (contains x c.pinged_connections) (λ t. h.kept.selected_there) (λ t. h.kept.selected_there);
}

find_conn-count :
    (heap : Heap) (c : IceController) (now : ℕ) (xs : List ℕ) (best : Option ℕ) (t : ℕ)
    → find_conn heap c now xs best ≡ some t
    → (best ≡ some t) ⊎ (1 ≤ count t xs)
unfolding find_conn
find_conn-count heap c now [] best t e = inl e
find_conn-count heap c now (x ∷ xs) best t e =
    elim (Bool-cases (is_pingable heap c x now && more_pingable heap x best)) [
      | inl q ↦ elim (find_conn-count heap c now xs (some x) t (rw q at e)) [
        | inl f ↦ let same : x ≡ t = ground (arith, f) in inr (ground (arith, same))
        | inr f ↦ inr (omega arith)
      ]
      | inr q ↦ elim (find_conn-count heap c now xs best t (rw q at e)) [
        | inl f ↦ inl f
        | inr f ↦ inr (omega arith)
      ]
    ]

start_round_keeps :
    (heap : Heap) (now : ℕ) (c : IceController)
    → ((start_round heap now c).connections ≡ c.connections)
      × ((start_round heap now c).selected_connection ≡ c.selected_connection)
unfolding start_round
start_round_keeps heap now c =
    if_intro
      (λ (d : IceController).
        (d.connections ≡ c.connections) × (d.selected_connection ≡ c.selected_connection))
      (any_connection (λ x. is_pingable heap c x now) c.unpinged_connections) (λ t. (refl, refl))
      (λ t. (refl, refl))

find_next_in_round-IsFound :
    (heap : Heap) (now : ℕ) (c : IceController) → IsKept c → IsFound (find_next_in_round heap now c)
unfolding find_next_in_round
find_next_in_round-IsFound heap now c h =
    let round = start_round heap now c in
    let p = start_round-IsPartition heap now c h.partition in
    let (same, selected) = start_round_keeps heap now c in
    record {
      kept = record {
        partition = p;
        selected_there = λ s e. rw same (h.selected_there s (sym selected ∙ e));
      };
      there = λ x e. elim (find_conn-count heap round now round.unpinged_connections none x e) [
        | inl f ↦ absurd (ground (arith, f))
        | inr f ↦ omega (arith, (p x).0, (p x).1)
      ];
    }

find_next_pingable_connection-IsFound :
    (heap : Heap) (now : ℕ) (c : IceController)
    → IsKept c
    → IsFound (find_next_pingable_connection heap now c)
unfolding find_next_pingable_connection
find_next_pingable_connection-IsFound heap now c h = go c.selected_connection refl
  where
    round : IsFound (find_next_in_round heap now c)
    round = find_next_in_round-IsFound heap now c h

    go :
        (o : Option ℕ)
        → c.selected_connection ≡ o
        → IsFound (elim o as (λ _. Option ℕ × IceController) [
          | none ↦ find_next_in_round heap now c
          | some s ↦
              if writable (heap s) && is_connection_past_ping_interval heap c s now
              then (some s, c)
              else find_next_in_round heap now c
        ])
    go none e = round
    go (some s) e =
        if_intro IsFound (writable (heap s) && is_connection_past_ping_interval heap c s now)
          (λ t. record { kept = h; there = λ x f. h.selected_there x (e ∙ f) }) (λ t. round)

select_connection_to_ping-IsFound :
    (heap : Heap) (now last : ℕ) (c : IceController) → IsKept c → IsFound (asked heap now last c)
unfolding select_connection_to_ping
select_connection_to_ping-IsFound heap now last c h =
    if_intro IsFound (leb last now) (λ t. find_next_pingable_connection-IsFound heap now c h)
      (λ t. record { kept = h; there = λ x e. absurd (ground (arith, e)) })

switch_to-top :
    (heap : Heap) (selected : Option ℕ) (top t : ℕ) → switch_to heap selected top ≡ some t → top ≡ t
unfolding switch_to
switch_to-top heap none top t e = ground arith
switch_to-top heap (some s) top t e = ground arith

chosen_there :
    (heap : Heap) (selected : Option ℕ) (xs : List ℕ) (t : ℕ)
    → (elim xs as (λ _. Option ℕ) [ [] ↦ none | top ∷ rest ↦ switch_to heap selected top ]) ≡ some t
    → 1 ≤ count t xs
chosen_there heap selected [] t e = ground arith
chosen_there heap selected (top ∷ rest) t e =
    let same = switch_to-top heap selected top t e in ground (arith, same)

sort_and_switch_connection-IsFound :
    (heap : Heap) (c : IceController) → IsKept c → IsFound (sort_and_switch_connection heap c)
unfolding sort_and_switch_connection
sort_and_switch_connection-IsFound heap c h =
    let same : (x : ℕ) → count x (sort heap c.connections) ≡ count x c.connections =
      λ x. count-sort heap x c.connections in
    record {
      kept = record {
        partition = λ x. rw (same x) (h.partition x);
        selected_there = λ s e. same s ∙ h.selected_there s e;
      };
      there = λ x e. omega (
        arith,
        chosen_there heap c.selected_connection (sort heap c.connections) x e,
        same x,
        (h.partition x).1,
      );
    }

switch-IsKept : (r : Option ℕ × IceController) → IsFound r → IsKept (switched r)
switch-IsKept (none, c) h = h.kept
switch-IsKept (some x, c) h = record {
  partition = h.kept.partition;
  selected_there = λ s e. h.there s e;
}

add_connection-IsKept :
    (conn : ℕ) (c : IceController)
    → IsKept c
    → count conn c.connections ≡ 0
    → IsKept (add_connection conn c)
unfolding add_connection
add_connection-IsKept conn c h fresh =
    let p = add_connection-IsPartition conn c h.partition fresh in
    record {
      partition = p;
      selected_there = λ s e.
          omega (arith, count-append s c.connections (conn ∷ []), h.selected_there s e, (p s).1);
    }

on_connection_destroyed-IsKept :
    (conn : ℕ) (c : IceController)
    → IsKept c
    → c.selected_connection ≢ some conn
    → IsKept (on_connection_destroyed conn c)
unfolding on_connection_destroyed
on_connection_destroyed-IsKept conn c h other = record {
  partition = on_connection_destroyed-IsPartition conn c h.partition;
  selected_there = λ s e.
      let apart : s ≢ conn = λ same. other (e ∙ ap some same) in
      ground (
        arith,
        count-erase_first s conn c.connections (h.partition conn).1,
        h.selected_there s e,
        apart,
      );
}

new_controller-IsKept : IsKept new_controller
unfolding new_controller
new_controller-IsKept = record {
  partition = λ x. (refl, omega arith);
  selected_there = λ s e. absurd (ground (arith, e));
}

-- In every state that the controller reaches by the calls of its channel, as long as no selected
-- connection is destroyed: each of its connections stands once in the vector and in exactly one of
-- the pinged and the unpinged set, the sets hold nothing else, and the selected connection is one of
-- the vector.
pub Reaches-IsKept : (c : IceController) → Reaches c → IsKept c
Reaches-IsKept c created = new_controller-IsKept
Reaches-IsKept c (adds conn d r h) = add_connection-IsKept conn d (Reaches-IsKept d r) h
Reaches-IsKept c (destroys conn d r h) =
    on_connection_destroyed-IsKept conn d (Reaches-IsKept d r) h
Reaches-IsKept c (pings heap now last d r) =
    mark-IsKept _ (select_connection_to_ping-IsFound heap now last d (Reaches-IsKept d r))
Reaches-IsKept c (sorts heap d r) =
    switch-IsKept _ (sort_and_switch_connection-IsFound heap d (Reaches-IsKept d r))

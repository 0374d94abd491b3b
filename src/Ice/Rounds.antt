-- ===== src/Ice/Rounds.antt =====
-- The pinging rounds of ice/ice_controller.cpp.
use web_rtcserver.Prelude.{
  ℕ, ◌+◌, ◌≤◌, ◌≡◌, inl, inr, refl, Bool, false, ◌&&◌, List, [], ◌∷◌, ◌++◌, none, some, arith, ltb,
  ◌==◌, if◌then◌else◌, Bool-cases, All, ◌≢◌,
}
use mathlib.Core.Path.{subst}
use web_rtcserver.Ice.Controller.{
  Heap, IceController, contains, set_insert, set_erase, set_union, erase_first, add_connection,
  on_connection_destroyed, mark_connection_pinged, is_pingable, more_pingable, find_conn,
  start_round, any_connection, find_next_in_round, is_connection_past_ping_interval,
  get_connection_ping_interval, controller_weak,
}

-- How often an address stands in a list.
abbrev pub count : ℕ → List ℕ → ℕ
count x [] = 0
count x (y ∷ ys) = (if x == y then 1 else 0) + count x ys

-- Each connection is pinged or unpinged, and not both, and stands once in each list that has it.
abbrev pub IsPartition : IceController → Type 0
IsPartition c =
    (x : ℕ)
    → (count x c.connections ≡ count x c.pinged_connections + count x c.unpinged_connections)
      × (count x c.connections ≤ 1)

pub count-append : (x : ℕ) (xs ys : List ℕ) → count x (xs ++ ys) ≡ count x xs + count x ys
count-append x [] ys = omega arith
count-append x (y ∷ xs) ys = ground (arith, count-append x xs ys)

count-set_insert :
    (x y : ℕ) (ys : List ℕ)
    → count y ys ≡ 0
    → count x (set_insert y ys) ≡ (if x == y then 1 else 0) + count x ys
unfolding set_insert
count-set_insert x y [] h = refl
count-set_insert x y (z ∷ ys) h = ground (arith, count-set_insert x y ys)

count-set_erase :
    (x y : ℕ) (ys : List ℕ) → count x (set_erase y ys) ≡ (if x == y then 0 else count x ys)
unfolding set_erase
count-set_erase x y [] = ground arith
count-set_erase x y (z ∷ ys) = ground (arith, count-set_erase x y ys)

pub count-erase_first :
    (x y : ℕ) (ys : List ℕ)
    → count y ys ≤ 1
    → count x (erase_first y ys) ≡ (if x == y then 0 else count x ys)
unfolding erase_first
count-erase_first x y [] h = ground arith
count-erase_first x y (z ∷ ys) h = ground (arith, count-erase_first x y ys)

contains_count : (x : ℕ) (ys : List ℕ) → contains x ys ≡ false → count x ys ≡ 0
unfolding contains
contains_count x [] h = refl
contains_count x (y ∷ ys) h = ground (arith, contains_count x ys)

count-set_union :
    (x : ℕ) (xs ys : List ℕ)
    → ((y : ℕ) → count y xs + count y ys ≤ 1)
    → count x (set_union xs ys) ≡ count x xs + count x ys
unfolding set_union
count-set_union x [] ys h = omega arith
count-set_union x (y ∷ xs) ys h =
    let absent : count y ys ≡ 0 = ground (arith, h y) in
    rw
      (
        count-set_union x xs (set_insert y ys)
            (λ z. rw (count-set_insert z y ys absent) (ground (arith, h z))),
        count-set_insert x y ys absent,
      )
      (omega arith)

-- Adding a connection that is not there keeps the partition.
pub add_connection-IsPartition :
    (conn : ℕ) (c : IceController)
    → IsPartition c
    → count conn c.connections ≡ 0
    → IsPartition (add_connection conn c)
unfolding add_connection
add_connection-IsPartition conn c p h x = ground (
  arith,
  p x,
  p conn,
  count-append x c.connections (conn ∷ []),
  count-set_insert x conn c.unpinged_connections,
)

pub on_connection_destroyed-IsPartition :
    (conn : ℕ) (c : IceController) → IsPartition c → IsPartition (on_connection_destroyed conn c)
unfolding on_connection_destroyed
on_connection_destroyed-IsPartition conn c p x = ground (
  arith,
  p x,
  p conn,
  count-set_erase x conn c.pinged_connections,
  count-set_erase x conn c.unpinged_connections,
  count-erase_first x conn c.connections,
)

pub mark_connection_pinged-IsPartition :
    (conn : ℕ) (c : IceController)
    → IsPartition c
    → count conn c.connections ≡ 1
    → IsPartition (mark_connection_pinged conn c)
unfolding mark_connection_pinged
mark_connection_pinged-IsPartition conn c p h x = ground (
  arith,
  p x,
  p conn,
  count-set_erase x conn c.unpinged_connections,
  count-set_insert x conn c.pinged_connections,
  contains_count conn c.pinged_connections,
)

pub start_round-IsPartition :
    (heap : Heap) (now : ℕ) (c : IceController)
    → IsPartition c
    → IsPartition (start_round heap now c)
unfolding start_round
start_round-IsPartition heap now c p x =
    elim (Bool-cases (any_connection (λ y. is_pingable heap c y now) c.unpinged_connections)) [
      | inl e ↦ rw e (p x)
      | inr e ↦
          rw
            (
              e,
              count-set_union x c.pinged_connections c.unpinged_connections
                  (λ y. omega (arith, (p y).0, (p y).1)),
            )
            (omega (arith, (p x).0, (p x).1), (p x).1)
    ]

-- A connection that the search may not take: it cannot be pinged, or was pinged after `t`.
abbrev pub is_older : Heap → IceController → ℕ → ℕ → ℕ → Bool
is_older heap c now t d =
    is_pingable heap c d now && ltb (heap d).last_ping_sent (heap t).last_ping_sent

find_conn-some :
    (heap : Heap) (c : IceController) (now : ℕ) (xs : List ℕ) (b t : ℕ)
    → find_conn heap c now xs (some b) ≡ some t
    → ((heap t).last_ping_sent ≤ (heap b).last_ping_sent)
      × All (λ d. is_older heap c now t d ≡ false) xs
unfolding find_conn more_pingable
find_conn-some heap c now [] b t e = ground arith
find_conn-some heap c now (x ∷ xs) b t e = elim (Bool-cases (is_older heap c now b x)) [
  | inl q ↦
      let (le, all) = find_conn-some heap c now xs x t (rw q at e) in
      (ground arith, (ground arith, all))
  | inr q ↦
      let (le, all) = find_conn-some heap c now xs b t (rw q at e) in (le, (ground arith, all))
]

-- Where the loop over some connections finds one, none of them that can be pinged was last pinged
-- before it.
pub find_conn_oldest :
    (heap : Heap) (c : IceController) (now : ℕ) (xs : List ℕ) (t : ℕ)
    → find_conn heap c now xs none ≡ some t
    → All (λ d. is_older heap c now t d ≡ false) xs
unfolding find_conn more_pingable
find_conn_oldest heap c now [] t e = tt
find_conn_oldest heap c now (x ∷ xs) t e = elim (Bool-cases (is_pingable heap c x now)) [
  | inl q ↦ let (le, all) = find_conn-some heap c now xs x t (rw q at e) in (ground arith, all)
  | inr q ↦ (ground arith, find_conn_oldest heap c now xs t (rw q at e))
]

find_conn-none :
    (heap : Heap) (c : IceController) (now : ℕ) (xs : List ℕ)
    → find_conn heap c now xs none ≡ none
    → All (λ d. is_pingable heap c d now ≡ false) xs
unfolding find_conn more_pingable
find_conn-none heap c now [] e = tt
find_conn-none heap c now (x ∷ xs) e = elim (Bool-cases (is_pingable heap c x now)) [
  | inl q ↦ absurd (found xs x (rw q at e))
  | inr q ↦ (q, find_conn-none heap c now xs (rw q at e))
]
  where
    found : (ys : List ℕ) (b : ℕ) → find_conn heap c now ys (some b) ≢ none
    found [] b f = ground arith
    found (y ∷ ys) b f = elim (Bool-cases (is_older heap c now b y)) [
      | inl q ↦ found ys y (rw q at f)
      | inr q ↦ found ys b (rw q at f)
    ]

All-count : (P : ℕ → Type 0) (xs : List ℕ) (x : ℕ) → All P xs → 1 ≤ count x xs → P x
All-count P [] x a h = absurd (omega arith)
All-count P (y ∷ ys) x a h = elim (Bool-cases (x == y)) [
  | inl e ↦ subst P (ground arith) a.0
  | inr e ↦ All-count P ys x a.1 (ground arith)
]

count-All : (P : ℕ → Type 0) (xs : List ℕ) → ((x : ℕ) → 1 ≤ count x xs → P x) → All P xs
count-All P [] f = tt
count-All P (y ∷ ys) f = (f y (ground arith), count-All P ys (λ x h. f x (ground arith)))

any_connection-false :
    (p : ℕ → Bool) (xs : List ℕ) → All (λ x. p x ≡ false) xs → any_connection p xs ≡ false
unfolding any_connection
any_connection-false p [] a = refl
any_connection-false p (x ∷ xs) a = rw a.0 (any_connection-false p xs a.1)

-- In a controller whose two sets partition its connections: where the search of a round, begun
-- again if need be, ends with no connection, none of the controller's connections can be pinged.
pub find_next_in_round-none :
    (heap : Heap) (now : ℕ) (c : IceController)
    → IsPartition c
    → (find_next_in_round heap now c).0 ≡ none
    → All (λ d. is_pingable heap c d now ≡ false) c.connections
unfolding find_next_in_round start_round is_pingable is_connection_past_ping_interval
    get_connection_ping_interval controller_weak
find_next_in_round-none heap now c p e =
    elim (Bool-cases (any_connection (λ y. is_pingable heap c y now) c.unpinged_connections)) [
      | inl q ↦
          let all = find_conn-none heap c now c.unpinged_connections (rw q at e) in
          let no =
            any_connection-false (λ y. is_pingable heap c y now) c.unpinged_connections all in
          ground (arith, q, no)
      | inr q ↦
          let again : IceController = record c {
            unpinged_connections = set_union c.pinged_connections c.unpinged_connections;
            pinged_connections = [];
          } in
          let all = find_conn-none heap again now again.unpinged_connections (rw q at e) in
          count-All (λ d. is_pingable heap c d now ≡ false) c.connections
            (λ x h.
              All-count (λ d. is_pingable heap c d now ≡ false) _ x all
                (rw
                  (count-set_union x c.pinged_connections c.unpinged_connections
                    (λ y. omega (arith, (p y).0, (p y).1)))
                  (omega (arith, (p x).0))))
    ]

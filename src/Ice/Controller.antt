-- ===== src/Ice/Controller.antt =====
-- ice/ice_controller.cpp: which connection is pinged next, and which one is used. A connection is
-- known by its address; `heap` says what stands there. A `std::set` of pointers is the list of the
-- addresses in ascending order, in which it is iterated.
use web_rtcserver.Prelude.{
  ℕ, ◌+◌, Bool, true, false, ◌&&◌, ◌||◌, List, [], ◌∷◌, ◌++◌, Option, none, some, ltb, leb, ◌==◌,
  if◌then◌else◌, is_empty,
}
use web_rtcserver.Ice.Defs.{
  weak_ping_interval, strong_ping_interval, stabling_connection_ping_interval,
  stable_connection_ping_interval, min_pings_at_weak_ping_interval,
}
use web_rtcserver.Ice.Connection.{IceConnection, write_state_code, writable, weak, stable, priority}

pub record IceController : Type 0 where
  pub selected_connection : Option ℕ
  pub connections : List ℕ
  pub unpinged_connections : List ℕ
  pub pinged_connections : List ℕ

pub record PingResult : Type 0 where
  pub conn : Option ℕ
  pub ping_interval : ℕ

abbrev pub Heap : Type 0
Heap = ℕ → IceConnection

-- The constructor.
unfoldable pub new_controller : IceController
new_controller = record {
  selected_connection = none;
  connections = [];
  unpinged_connections = [];
  pinged_connections = [];
}

-- `set::count`, `set::insert` and `set::erase`.
unfoldable pub contains : ℕ → List ℕ → Bool
contains x [] = false
contains x (y ∷ ys) = x == y || contains x ys

unfoldable pub set_insert : ℕ → List ℕ → List ℕ
set_insert x [] = x ∷ []
set_insert x (y ∷ ys) =
    if ltb x y then x ∷ y ∷ ys else if x == y then y ∷ ys else y ∷ set_insert x ys

unfoldable pub set_erase : ℕ → List ℕ → List ℕ
set_erase x [] = []
set_erase x (y ∷ ys) = if x == y then set_erase x ys else y ∷ set_erase x ys

unfoldable pub set_union : List ℕ → List ℕ → List ℕ
set_union [] s = s
set_union (x ∷ xs) s = set_union xs (set_insert x s)

-- `erase` of the first entry that is equal.
unfoldable pub erase_first : ℕ → List ℕ → List ℕ
erase_first x [] = []
erase_first x (y ∷ ys) = if y == x then ys else y ∷ erase_first x ys

unfoldable pub add_connection : ℕ → IceController → IceController
unfolding set_insert
add_connection conn c = record c {
  connections = c.connections ++ conn ∷ [];
  unpinged_connections = set_insert conn c.unpinged_connections;
}

unfoldable pub on_connection_destroyed : ℕ → IceController → IceController
unfolding set_erase erase_first
on_connection_destroyed conn c = record c {
  pinged_connections = set_erase conn c.pinged_connections;
  unpinged_connections = set_erase conn c.unpinged_connections;
  connections = erase_first conn c.connections;
}

-- `_weak`, of the controller.
unfoldable pub controller_weak : Heap → IceController → Bool
controller_weak heap c = elim c.selected_connection [ none ↦ true | some s ↦ weak (heap s) ]

unfoldable pub get_connection_ping_interval : Heap → IceController → ℕ → ℕ → ℕ
unfolding controller_weak
get_connection_ping_interval heap c conn now =
    if ltb (heap conn).num_pings_sent min_pings_at_weak_ping_interval
    then weak_ping_interval
    else if controller_weak heap c || (if stable now (heap conn) then false else true)
    then stabling_connection_ping_interval
    else stable_connection_ping_interval

unfoldable pub is_connection_past_ping_interval : Heap → IceController → ℕ → ℕ → Bool
unfolding get_connection_ping_interval
is_connection_past_ping_interval heap c conn now =
    leb ((heap conn).last_ping_sent + get_connection_ping_interval heap c conn now) now

unfoldable pub is_pingable : Heap → IceController → ℕ → ℕ → Bool
unfolding controller_weak is_connection_past_ping_interval
is_pingable heap c conn now =
    if is_empty (heap conn).remote_candidate.username
      || is_empty (heap conn).remote_candidate.password
    then false
    else if controller_weak heap c
    then true
    else is_connection_past_ping_interval heap c conn now

-- The loops that stop at the first connection which passes a test.
unfoldable pub any_connection : (ℕ → Bool) → List ℕ → Bool
any_connection p [] = false
any_connection p (x ∷ xs) = if p x then true else any_connection p xs

unfoldable pub has_pingable_connection : Heap → ℕ → IceController → Bool
unfolding is_pingable any_connection
has_pingable_connection heap now c = any_connection (λ x. is_pingable heap c x now) c.connections

unfoldable pub mark_connection_pinged : ℕ → IceController → IceController
unfolding contains set_insert set_erase
mark_connection_pinged conn c = if contains conn c.pinged_connections then c else record c {
  pinged_connections = set_insert conn c.pinged_connections;
  unpinged_connections = set_erase conn c.unpinged_connections;
}

-- `_more_pingable`; the first argument is never null.
unfoldable pub more_pingable : Heap → ℕ → Option ℕ → Bool
more_pingable heap conn1 none = true
more_pingable heap conn1 (some conn2) = ltb (heap conn1).last_ping_sent (heap conn2).last_ping_sent

-- The last loop of `_find_next_pingable_connection`.
unfoldable pub find_conn : Heap → IceController → ℕ → List ℕ → Option ℕ → Option ℕ
unfolding more_pingable is_pingable
find_conn heap c now [] best = best
find_conn heap c now (x ∷ xs) best =
    find_conn heap c now xs
      (if is_pingable heap c x now && more_pingable heap x best then some x else best)

-- Its middle: when no unpinged connection is left to ping, all are unpinged again.
unfoldable pub start_round : Heap → ℕ → IceController → IceController
unfolding any_connection is_pingable set_union
start_round heap now c =
    if any_connection (λ x. is_pingable heap c x now) c.unpinged_connections then c else record c {
      unpinged_connections = set_union c.pinged_connections c.unpinged_connections;
      pinged_connections = [];
    }

unfoldable pub find_next_in_round : Heap → ℕ → IceController → Option ℕ × IceController
unfolding start_round find_conn
find_next_in_round heap now c =
    let round = start_round heap now c in
    (find_conn heap round now round.unpinged_connections none, round)

unfoldable pub find_next_pingable_connection : Heap → ℕ → IceController → Option ℕ × IceController
unfolding is_connection_past_ping_interval find_next_in_round
find_next_pingable_connection heap now c = elim c.selected_connection [
  | none ↦ find_next_in_round heap now c
  | some s ↦
      if writable (heap s) && is_connection_past_ping_interval heap c s now
      then (some s, c)
      else find_next_in_round heap now c
]

-- `select_connection_to_ping` at a time that it reads.
unfoldable pub select_connection_to_ping : Heap → ℕ → ℕ → IceController → PingResult × IceController
unfolding any_connection controller_weak find_next_pingable_connection
select_connection_to_ping heap now last_ping_sent_ms c =
    let need_ping_more_at_weak =
      any_connection (λ x. ltb (heap x).num_pings_sent min_pings_at_weak_ping_interval)
        c.connections in
    let ping_interval =
      if controller_weak heap c || need_ping_more_at_weak
      then weak_ping_interval
      else strong_ping_interval in
    let found : Option ℕ × IceController =
      if leb last_ping_sent_ms now then find_next_pingable_connection heap now c else (none, c) in
    (record { conn = found.0; ping_interval = ping_interval }, found.1)

pub data Comparison : Type 0 where
  a_is_better b_is_better equally_good : Comparison

-- `_compare_connections`; a write state is true where its number is not 0.
unfoldable pub compare_connections : IceConnection → IceConnection → Comparison
compare_connections a b =
    if writable a && (if writable b then false else true)
    then a_is_better
    else if (if writable a then false else true) && writable b
    then b_is_better
    else if ltb 0 (write_state_code a.write_state) && (write_state_code b.write_state == 0)
    then a_is_better
    else if (write_state_code a.write_state == 0) && ltb 0 (write_state_code b.write_state)
    then b_is_better
    else if a.receiving && (if b.receiving then false else true)
    then a_is_better
    else if (if a.receiving then false else true) && b.receiving
    then b_is_better
    else if ltb (priority b) (priority a)
    then a_is_better
    else if ltb (priority a) (priority b)
    then b_is_better
    else equally_good

-- The order by which `sort_and_switch_connection` sorts.
unfoldable pub goes_before : IceConnection → IceConnection → Bool
unfolding compare_connections
goes_before a b = elim (compare_connections a b) [
  | a_is_better ↦ true
  | b_is_better ↦ false
  | equally_good ↦ ltb a.rtt b.rtt
]

-- The stable sort: an element goes after those that it does not go before.
unfoldable pub sort_insert : Heap → ℕ → List ℕ → List ℕ
unfolding goes_before
sort_insert heap x [] = x ∷ []
sort_insert heap x (y ∷ ys) =
    if goes_before (heap y) (heap x) then y ∷ sort_insert heap x ys else x ∷ y ∷ ys

unfoldable pub sort : Heap → List ℕ → List ℕ
unfolding sort_insert
sort heap [] = []
sort heap (x ∷ xs) = sort_insert heap x (sort heap xs)

unfoldable pub ready_to_send : Heap → Option ℕ → Bool
ready_to_send heap none = false
ready_to_send heap (some s) = writable (heap s) || (write_state_code (heap s).write_state == 1)

abbrev pub k_min_improvement : ℕ
k_min_improvement = 10

abbrev pub same_connection : Option ℕ → ℕ → Bool
same_connection none x = false
same_connection (some s) x = s == x

-- What is done with the first connection of the sorted vector.
unfoldable pub switch_to : Heap → Option ℕ → ℕ → Option ℕ
switch_to heap selected top =
    if (if ready_to_send heap (some top) then false else true) || same_connection selected top
    then none
    else elim selected [
      | none ↦ some top
      | some s ↦ if leb ((heap top).rtt + k_min_improvement) (heap s).rtt then some top else none
    ]

unfoldable pub sort_and_switch_connection : Heap → IceController → Option ℕ × IceController
unfolding sort switch_to
sort_and_switch_connection heap c =
    let sorted = sort heap c.connections in
    let chosen : Option ℕ = elim sorted [
      | [] ↦ none
      | top ∷ rest ↦ switch_to heap c.selected_connection top
    ] in
    (chosen, record c { connections = sorted })

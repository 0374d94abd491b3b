-- ===== src/Ice/Ordering.antt =====
-- The order of `IceController::_compare_connections` in ice/ice_controller.cpp, and the connection
-- that `sort_and_switch_connection` chooses by it.
use web_rtcserver.Prelude.{
  ℕ, ◌+◌, ◌^◌, ◌<◌, ◌≡◌, inl, inr, refl, sym, true, false, ◌&&◌, ◌||◌, List, [], ◌∷◌, Option, none,
  some, arith, ltb, ◌==◌, if◌then◌else◌, All, Bool-cases,
}
use mathlib.Core.Path.{subst}
use web_rtcserver.Ice.Connection.{IceConnection, writable, priority}
use web_rtcserver.Ice.Controller.{
  Heap, IceController, a_is_better, b_is_better, equally_good, compare_connections, goes_before,
  sort_insert, sort, ready_to_send, switch_to, sort_and_switch_connection, k_min_improvement,
  same_connection,
}

-- Writability weighs more than receiving, and receiving more than the priority.
abbrev pub connection_key : IceConnection → ℕ
connection_key c =
    (if writable c then 2 ^ 65 else 0) + (if c.receiving then 2 ^ 64 else 0) + priority c

priority-lt : (c : IceConnection) → priority c < 2 ^ 64
unfolding priority
priority-lt c = ground arith

-- The comparison of two connections is that of their keys: a connection is better that is writable
-- where the other is not, or else receiving where the other is not, or else of the higher
-- priority.
pub compare_connections-key :
    (a b : IceConnection)
    → compare_connections a b ≡ (
        if ltb (connection_key b) (connection_key a)
        then a_is_better
        else if ltb (connection_key a) (connection_key b)
        then b_is_better
        else equally_good)
unfolding compare_connections
compare_connections-key a b = ground (arith, priority-lt a, priority-lt b)

-- `goes_before` as an order of numbers.
goes_before-key :
    (a b : IceConnection)
    → goes_before a b ≡ (
        ltb (connection_key b) (connection_key a)
        || ((connection_key a == connection_key b) && ltb a.rtt b.rtt))
unfolding goes_before
goes_before-key a b = rw (goes_before, compare_connections-key a b) (ground arith)

goes_before_trans :
    (a b c : IceConnection)
    → goes_before a b ≡ false
    → goes_before b c ≡ false
    → goes_before a c ≡ false
goes_before_trans a b c p q =
    ground (arith, goes_before-key a b, goes_before-key b c, goes_before-key a c)

goes_before_asym : (a b : IceConnection) → goes_before a b ≡ true → goes_before b a ≡ false
goes_before_asym a b p = ground (arith, goes_before-key a b, goes_before-key b a)

goes_before_self : (a : IceConnection) → goes_before a a ≡ false
goes_before_self a = ground (arith, goes_before-key a a)

-- The head of a sorted vector has nothing before it, among those sorted.
abbrev pub HasBestFirst : Heap → List ℕ → Type 0
HasBestFirst heap [] = Unit
HasBestFirst heap (x ∷ xs) =
    All (λ y. goes_before (heap y) (heap x) ≡ false) xs × HasBestFirst heap xs

All-sort_insert :
    (P : ℕ → Type 0) (heap : Heap) (x : ℕ) (xs : List ℕ)
    → P x
    → All P xs
    → All P (sort_insert heap x xs)
unfolding sort_insert
All-sort_insert P heap x [] p q = (p, q)
All-sort_insert P heap x (y ∷ ys) p q = elim (Bool-cases (goes_before (heap y) (heap x))) [
  | inl e ↦ rw e (q.0, All-sort_insert P heap x ys p q.1)
  | inr e ↦ rw e (p, q)
]

sort_insert-All :
    (P : ℕ → Type 0) (heap : Heap) (x : ℕ) (xs : List ℕ)
    → All P (sort_insert heap x xs)
    → P x × All P xs
unfolding sort_insert
sort_insert-All P heap x [] q = q
sort_insert-All P heap x (y ∷ ys) q = elim (Bool-cases (goes_before (heap y) (heap x))) [
  | inl e ↦ let r = rw e at q in let (p, s) = sort_insert-All P heap x ys r.1 in (p, (r.0, s))
  | inr e ↦ let r = rw e at q in (r.0, r.1)
]

sort-All : (P : ℕ → Type 0) (heap : Heap) (xs : List ℕ) → All P (sort heap xs) → All P xs
unfolding sort
sort-All P heap [] q = q
sort-All P heap (x ∷ xs) q =
    let (p, r) = sort_insert-All P heap x (sort heap xs) q in (p, sort-All P heap xs r)

All-sort : (P : ℕ → Type 0) (heap : Heap) (xs : List ℕ) → All P xs → All P (sort heap xs)
unfolding sort
All-sort P heap [] q = q
All-sort P heap (x ∷ xs) q = All-sort_insert P heap x (sort heap xs) q.0 (All-sort P heap xs q.1)

behind :
    (heap : Heap) (x y : ℕ) (ys : List ℕ)
    → goes_before (heap y) (heap x) ≡ false
    → All (λ z. goes_before (heap z) (heap y) ≡ false) ys
    → All (λ z. goes_before (heap z) (heap x) ≡ false) ys
behind heap x y [] e q = q
behind heap x y (z ∷ zs) e q =
    (goes_before_trans (heap z) (heap y) (heap x) q.0 e, behind heap x y zs e q.1)

sort_insert-HasBestFirst :
    (heap : Heap) (x : ℕ) (xs : List ℕ)
    → HasBestFirst heap xs
    → HasBestFirst heap (sort_insert heap x xs)
unfolding sort_insert
sort_insert-HasBestFirst heap x [] h = (tt, tt)
sort_insert-HasBestFirst heap x (y ∷ ys) h = elim (Bool-cases (goes_before (heap y) (heap x))) [
  | inl e ↦ rw e (
    All-sort_insert (λ z. goes_before (heap z) (heap y) ≡ false) heap x ys
        (goes_before_asym (heap y) (heap x) e) h.0,
    sort_insert-HasBestFirst heap x ys h.1,
  )
  | inr e ↦ rw e ((e, behind heap x y ys e h.0), h)
]

sort-HasBestFirst : (heap : Heap) (xs : List ℕ) → HasBestFirst heap (sort heap xs)
unfolding sort
sort-HasBestFirst heap [] = tt
sort-HasBestFirst heap (x ∷ xs) =
    sort_insert-HasBestFirst heap x (sort heap xs) (sort-HasBestFirst heap xs)

switch_to-some :
    (heap : Heap) (selected : Option ℕ) (top t : ℕ)
    → switch_to heap selected top ≡ some t
    → (top ≡ t) × (ready_to_send heap (some t) ≡ true) × (same_connection selected t ≡ false)
unfolding switch_to ready_to_send
switch_to-some heap none top t e = ground arith
switch_to-some heap (some s) top t e = ground arith

-- The connection that `sort_and_switch_connection` switches to, if any, is ready to send, is not
-- the selected one, and no connection of the controller goes before it, being better, or as good
-- and faster.
pub sort_and_switch_connection_best :
    (heap : Heap) (c : IceController) (t : ℕ)
    → (sort_and_switch_connection heap c).0 ≡ some t
    → (ready_to_send heap (some t) ≡ true)
      × (same_connection c.selected_connection t ≡ false)
      × All (λ y. goes_before (heap y) (heap t) ≡ false) c.connections
unfolding sort_and_switch_connection
sort_and_switch_connection_best heap c t e =
    go (sort heap c.connections) refl e (sort-HasBestFirst heap c.connections)
  where
    go :
        (xs : List ℕ)
        → xs ≡ sort heap c.connections
        → (elim xs as (λ _. Option ℕ) [
          | [] ↦ none
          | top ∷ rest ↦ switch_to heap c.selected_connection top
        ])
          ≡ some t
        → HasBestFirst heap xs
        → (ready_to_send heap (some t) ≡ true)
          × (same_connection c.selected_connection t ≡ false)
          × All (λ y. goes_before (heap y) (heap t) ≡ false) c.connections
    go [] at e h = ground arith
    go (top ∷ rest) at e h =
        let (same, ready, other) = switch_to-some heap c.selected_connection top t e in
        (
          ready,
          other,
          subst (λ u. All (λ y. goes_before (heap y) (heap u) ≡ false) c.connections) same
              (sort-All (λ y. goes_before (heap y) (heap top) ≡ false) heap c.connections
                (rw (sym at) (goes_before_self (heap top), h.0))),
        )

-- While the selected connection is less than 10 ms slower than each connection of the controller,
-- `sort_and_switch_connection` switches to none of them, whatever their states.
pub sort_and_switch_connection_keeps :
    (heap : Heap) (c : IceController) (s : ℕ)
    → c.selected_connection ≡ some s
    → All (λ t. (heap s).rtt < (heap t).rtt + k_min_improvement) c.connections
    → (sort_and_switch_connection heap c).0 ≡ none
unfolding sort_and_switch_connection switch_to
sort_and_switch_connection_keeps heap c s e h =
    go (sort heap c.connections)
      (All-sort (λ t. (heap s).rtt < (heap t).rtt + k_min_improvement) heap c.connections h)
  where
    go :
        (xs : List ℕ)
        → All (λ t. (heap s).rtt < (heap t).rtt + k_min_improvement) xs
        → (elim xs as (λ _. Option ℕ) [
          | [] ↦ none
          | top ∷ rest ↦ switch_to heap c.selected_connection top
        ])
          ≡ none
    go [] h = refl
    go (top ∷ rest) h = rw e (ground (arith, h.0))

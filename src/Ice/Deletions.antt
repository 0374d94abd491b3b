-- ===== src/Ice/Deletions.antt =====
-- Of ice/stun_request.cpp: what deleting a request, or the manager with its requests, leaves.
use web_rtcserver.Prelude.{
  ℕ, zero, suc, ◌≤◌, ◌≡◌, ◌≢◌, refl, sym, ap, ◌∙◌, true, false, List, [], ◌∷◌, Option, none, some,
  ◌==◌, length, arith, inl, inr, Bool-cases, List-cases, bytes_eq, bytes_eq_refl, bytes_eq→eq,
}
use web_rtcserver.Prelude.Maps.{lookup, erase, lookup-erase}
use web_rtcserver.Prelude.Heap.{object_at, free, object_at-free_other}
use web_rtcserver.Ice.Requests.{
  StunRequest, StunRequestManager, remove, delete_request, destroy_loop,
}

-- Each entry of the map is a request that is alive and has that id.
pub record IsWaiting (m : StunRequestManager) : Type 0 where
  pub alive :
      (id : List ℕ) (at : ℕ)
      → lookup id m.requests ≡ some at
      → (request : StunRequest) × (object_at at m.heap ≡ some request) × (request.id ≡ id)

-- Without a request.
abbrev pub without : List ℕ → ℕ → StunRequestManager → StunRequestManager
without id at m = record { requests = erase id m.requests; heap = free at m.heap }

pub lookup-erase_self : (id : List ℕ) (m : List (List ℕ × ℕ)) → lookup id (erase id m) ≡ none
lookup-erase_self id m = rw (lookup-erase id id m, bytes_eq_refl id) refl

-- An entry that is left was there, under another id.
entry_left :
    (id other : List ℕ) (at : ℕ) (m : List (List ℕ × ℕ))
    → lookup other (erase id m) ≡ some at
    → (bytes_eq id other ≡ false) × (lookup other m ≡ some at)
entry_left id other at m e = elim (Bool-cases (bytes_eq id other)) [
  | inl t ↦ absurd (ground (arith, rw (lookup-erase id other m, t) at e))
  | inr t ↦ (t, rw (lookup-erase id other m, t) at e)
]

erase-IsWaiting :
    (id : List ℕ) (m : StunRequestManager)
    → IsWaiting m
    → IsWaiting (record m { requests = erase id m.requests })
erase-IsWaiting id m h = record {
  alive = λ other at e. h.alive other at (entry_left id other at m.requests e).1;
}

pub without-IsWaiting :
    (request : StunRequest) (at : ℕ) (m : StunRequestManager)
    → IsWaiting m
    → object_at at m.heap ≡ some request
    → IsWaiting (without request.id at m)
without-IsWaiting request at m h there = record {
  alive = λ other a e.
      let (t, old) = entry_left request.id other a m.requests e in
      let (r, its, same) = h.alive other a old in
      let apart : a ≢ at = λ f.
        let one : some r ≡ some request = sym its ∙ ap (λ b. object_at b m.heap) f ∙ there in
        let id_is : r.id ≡ request.id = ap (id_of request.id) one in
        let equal : bytes_eq request.id other ≡ true =
          ap (bytes_eq request.id) (sym same ∙ id_is) ∙ bytes_eq_refl request.id in
        ground (arith, equal, t) in
      (r, object_at-free_other a at m.heap apart ∙ its, same);
}
  where
    id_of : List ℕ → Option StunRequest → List ℕ
    id_of d none = d
    id_of d (some r) = r.id

pub delete_request_lem :
    (request : StunRequest) (at : ℕ) (m : StunRequestManager)
    → object_at at m.heap ≡ some request
    → lookup request.id m.requests ≡ some at
    → delete_request at m ≡ some (without request.id at m)
unfolding delete_request remove
delete_request_lem request at m there e = simp (delete_request, there, remove, e)

-- Where the entry is off the map already.
delete_request_erased :
    (request : StunRequest) (at : ℕ) (m : StunRequestManager)
    → object_at at m.heap ≡ some request
    → delete_request at (record m { requests = erase request.id m.requests })
      ≡ some (without request.id at m)
unfolding delete_request remove
delete_request_erased request at m there =
    simp (delete_request, there, remove, lookup-erase_self request.id m.requests)

object_at-free : (at : ℕ) (heap : List (ℕ × StunRequest)) → object_at at (free at heap) ≡ none
object_at-free at [] = refl
object_at-free at ((b, x) ∷ heap) = elim (Bool-cases (b == at)) [
  | inl t ↦ rw t (object_at-free at heap)
  | inr t ↦ simp (t) (object_at-free at heap)
]

stays_dead :
    (at b : ℕ) (heap : List (ℕ × StunRequest))
    → object_at at heap ≡ none
    → object_at at (free b heap) ≡ none
stays_dead at b heap h = elim (Bool-cases (at == b)) [
  | inl t ↦
      let same : at ≡ b = ground (arith, t) in
      ap (λ c. object_at at (free c heap)) (sym same) ∙ object_at-free at heap
  | inr t ↦ object_at-free_other at b heap (λ e. ground (arith, t, e)) ∙ h
]

length-erase : (id : List ℕ) (m : List (List ℕ × ℕ)) → length (erase id m) ≤ length m
unfolding erase
length-erase id [] = omega arith
length-erase id ((j, w) ∷ m) = ground (arith, length-erase id m)

-- What is left of a manager that is destroyed.
pub record IsGone (before after : StunRequestManager) : Type 0 where
  pub freed :
      (id : List ℕ) (at : ℕ) → lookup id before.requests ≡ some at → object_at at after.heap ≡ none
  pub dead : (at : ℕ) → object_at at before.heap ≡ none → object_at at after.heap ≡ none

-- One round less to go.
IsGone-without :
    (request : StunRequest) (at : ℕ) (m after : StunRequestManager)
    → lookup request.id m.requests ≡ some at
    → IsGone (without request.id at m) after
    → IsGone m after
IsGone-without request at m after e h = record {
  freed = λ other a f. elim (Bool-cases (bytes_eq request.id other)) [
    | inl t ↦
        let same : some at ≡ some a =
          sym e ∙ ap (λ i. lookup i m.requests) (bytes_eq→eq request.id other t) ∙ f in
        let is_at : at ≡ a = ground (arith, same) in
        ap (λ b. object_at b after.heap) (sym is_at) ∙ h.dead at (object_at-free at m.heap)
    | inr t ↦ h.freed other a (rw (lookup-erase request.id other m.requests, t) f)
  ];
  dead = λ a f. h.dead a (stays_dead a at m.heap f);
}

-- A round of the loop.
destroy_round :
    (n : ℕ) (m : StunRequestManager) (id : List ℕ) (at : ℕ) (rest : List (List ℕ × ℕ))
    → IsWaiting m
    → m.requests ≡ (id, at) ∷ rest
    → length m.requests ≤ suc n
    → (request : StunRequest) × (object_at at m.heap ≡ some request)
      × (lookup request.id m.requests ≡ some at)
      × (destroy_loop (suc n) m ≡ destroy_loop n (without request.id at m))
      × (length (erase request.id m.requests) ≤ n)
unfolding destroy_loop lookup erase
destroy_round n m id at rest h e enough =
    let first : lookup id m.requests ≡ some at = rw (e, bytes_eq_refl id) refl in
    let (request, lives, same) = h.alive id at first in
    let deleted : delete_request at (record m { requests = erase id m.requests })
        ≡ some (without request.id at m) =
      ap (λ i. delete_request at (record m { requests = erase i m.requests })) (sym same)
      ∙ delete_request_erased request at m lives in
    (
      request,
      lives,
      rw same first,
      rest_of _ deleted,
      rw (same, e, bytes_eq_refl id) (omega (arith, length-erase id rest, ap length e)),
    )
  where
    rest_of :
        (m' : StunRequestManager)
        → delete_request at (record m { requests = erase id m.requests }) ≡ some m'
        → destroy_loop (suc n) m ≡ destroy_loop n m'
    rest_of m' k = simp (destroy_loop, e, rw e at k)

-- Enough fuel: the loop deletes every request that waits, each once.
pub destroy_loop-IsGone :
    (n : ℕ) (m : StunRequestManager)
    → IsWaiting m
    → length m.requests ≤ n
    → (after : StunRequestManager) × (destroy_loop n m ≡ some after) × IsGone m after
unfolding destroy_loop lookup
destroy_loop-IsGone zero m h enough = elim (List-cases m.requests) [
  | inl e ↦ (
    m,
    simp (destroy_loop, e),
    record { freed = λ id at f. absurd (ground (arith, rw e at f)); dead = λ at f. f },
  )
  | inr (entry, rest, e) ↦ absurd (omega (arith, ap length e))
]
destroy_loop-IsGone (suc n) m h enough = elim (List-cases m.requests) [
  | inl e ↦ (
    m,
    simp (destroy_loop, e),
    record { freed = λ id at f. absurd (ground (arith, rw e at f)); dead = λ at f. f },
  )
  | inr ((id, at), rest, e) ↦
      let (request, lives, entry, round, fewer) = destroy_round n m id at rest h e enough in
      let (after, ends, gone) =
        destroy_loop-IsGone n (without request.id at m) (without-IsWaiting request at m h lives)
          fewer in
      (after, round ∙ ends, IsGone-without request at m after entry gone)
]

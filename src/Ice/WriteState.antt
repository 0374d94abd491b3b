-- ===== src/Ice/WriteState.antt =====
-- `IceConnection::update_state` of ice/ice_connection.cpp: how a connection stops being writable.
use web_rtcserver.Prelude.{
  ap, ◌∙◌, ◌+◌, ◌*◌, ◌%◌, ◌^◌, min, max, List, [], ◌∷◌, none, some, Bool, false, ltb, leb, length,
  get_elem?, ℕ, ◌≡◌, inl, inr, refl, ◌&&◌, ◌||◌, arith, ◌==◌, if◌then◌else◌, Bool-cases,
}
use web_rtcserver.Ice.Defs.{connection_write_connect_fails}
use web_rtcserver.Ice.Connection.{
  WriteState, SentPing, state_writable, state_write_unreliable, state_write_init,
  state_write_timeout, write_state_code, IceConnection, writable, set_write_state, update_receiving,
  computed_receiving, same_bool, too_many_ping_fails, too_long_without_response, clamped_rtt,
  mark_unreliable, mark_timeout, update_state, past_int,
}

-- `update_receiving` leaves the write state.
write_state-update_receiving :
    (now : ℕ) (c : IceConnection) → (update_receiving now c).0.write_state ≡ c.write_state
unfolding update_receiving
write_state-update_receiving now c =
    elim (Bool-cases (same_bool c.receiving (computed_receiving now c))) [
      | inl e ↦ rw e refl
      | inr e ↦ rw e refl
    ]

-- `set_write_state` sets it, whether it signals or not.
set_write_state_lem :
    (s : WriteState) (c : IceConnection) → (set_write_state s c).0 ≡ record c { write_state = s }
unfolding set_write_state
set_write_state_lem s c = elim (Bool-cases (write_state_code c.write_state == write_state_code s)) [
  | inl e ↦ rw e refl
  | inr e ↦ rw e refl
]

-- Nothing but the write state moves before `update_receiving`.
mark_unreliable_cases :
    (now : ℕ) (c : IceConnection)
    → (mark_unreliable now c).0 ≡ record c {
      write_state =
          if writable c
            && (too_many_ping_fails connection_write_connect_fails (clamped_rtt c) now c
                && too_long_without_response 5000 now c)
          then state_write_unreliable
          else c.write_state;
    }
unfolding mark_unreliable
mark_unreliable_cases now c =
    elim (Bool-cases (
      writable c
      && (too_many_ping_fails connection_write_connect_fails (clamped_rtt c) now c
          && too_long_without_response 5000 now c))) [
            | inl e ↦ rw (e, set_write_state_lem) refl
            | inr e ↦ rw e refl
          ]

mark_timeout_cases :
    (now : ℕ) (c : IceConnection)
    → (mark_timeout now c).0 ≡ record c {
      write_state =
          if (write_state_code c.write_state == 1 || write_state_code c.write_state == 2)
            && too_long_without_response 15000 now c
          then state_write_timeout
          else c.write_state;
    }
unfolding mark_timeout
mark_timeout_cases now c =
    elim (Bool-cases (
      (write_state_code c.write_state == 1 || write_state_code c.write_state == 2)
      && too_long_without_response 15000 now c)) [
        | inl e ↦ rw (e, set_write_state_lem) refl
        | inr e ↦ rw e refl
      ]

-- The tests that the table is made of, on the list of unanswered pings: the fifth is overdue by
-- twice the round-trip time, at least 100 and at most 60000, where the sum is cut to an `int`, which
-- is negative from 2^31 on; the first is overdue by some milliseconds.
abbrev pub is_past : ℕ → ℕ → Bool
is_past now due = leb (2 ^ 31) due || ltb due now

abbrev pub fifth_overdue : ℕ → ℕ → List SentPing → Bool
fifth_overdue now rtt (p1 ∷ p2 ∷ p3 ∷ p4 ∷ p5 ∷ ps) =
    is_past now ((p5.sent_time + min 60000 (max 100 (2 * rtt))) % 2 ^ 32)
fifth_overdue now rtt ps = false

abbrev pub first_overdue : ℕ → ℕ → List SentPing → Bool
first_overdue wait now [] = false
first_overdue wait now (p ∷ ps) = ltb (p.sent_time + wait) now

clamped_rtt_lem : (c : IceConnection) → clamped_rtt c ≡ min 60000 (max 100 (2 * c.rtt))
unfolding clamped_rtt
clamped_rtt_lem c = ground arith

past_int_lem : (now t : ℕ) → past_int now t ≡ is_past now (t % 2 ^ 32)
unfolding past_int
past_int_lem now t = ground arith

fifth_overdue_lem :
    (now : ℕ) (c : IceConnection)
    → too_many_ping_fails connection_write_connect_fails (clamped_rtt c) now c
      ≡ fifth_overdue now c.rtt c.pings_since_last_response
unfolding too_many_ping_fails
fifth_overdue_lem now c =
    ap (λ r. too_many_ping_fails connection_write_connect_fails r now c) (clamped_rtt_lem c)
    ∙ go c.pings_since_last_response
  where
    go :
        (ps : List SentPing)
        → (if ltb (length ps) 5 then false else elim (get_elem? ps 4) as (λ _. Bool) [
          | none ↦ false
          | some p ↦ past_int now (p.sent_time + min 60000 (max 100 (2 * c.rtt)))
        ])
          ≡ fifth_overdue now c.rtt ps
    go [] = refl
    go (p1 ∷ []) = refl
    go (p1 ∷ p2 ∷ []) = refl
    go (p1 ∷ p2 ∷ p3 ∷ []) = refl
    go (p1 ∷ p2 ∷ p3 ∷ p4 ∷ []) = refl
    go (p1 ∷ p2 ∷ p3 ∷ p4 ∷ p5 ∷ ps) =
        let long : ltb (length (p1 ∷ p2 ∷ p3 ∷ p4 ∷ p5 ∷ ps)) 5 ≡ false = ground arith in
        rw long (past_int_lem now (p5.sent_time + min 60000 (max 100 (2 * c.rtt))))

first_overdue_lem :
    (wait now : ℕ) (c : IceConnection)
    → too_long_without_response wait now c ≡ first_overdue wait now c.pings_since_last_response
unfolding too_long_without_response
first_overdue_lem wait now c = go c.pings_since_last_response
  where
    go :
        (ps : List SentPing)
        → (elim ps as (λ _. Bool) [ [] ↦ false | p ∷ rest ↦ ltb (p.sent_time + wait) now ])
          ≡ first_overdue wait now ps
    go [] = refl
    go (p ∷ ps) = refl

-- The write state in terms of the code's own tests.
abbrev coded_write_state : ℕ → IceConnection → WriteState → WriteState
coded_write_state now c state_writable =
    if too_many_ping_fails connection_write_connect_fails (clamped_rtt c) now c
      && too_long_without_response 5000 now c
    then if too_long_without_response 15000 now c
      then state_write_timeout
      else state_write_unreliable
    else state_writable
coded_write_state now c state_write_unreliable =
    if too_long_without_response 15000 now c then state_write_timeout else state_write_unreliable
coded_write_state now c state_write_init =
    if too_long_without_response 15000 now c then state_write_timeout else state_write_init
coded_write_state now c state_write_timeout = state_write_timeout

update_state_coded :
    (now : ℕ) (c : IceConnection)
    → (update_state now c).0.write_state ≡ coded_write_state now c c.write_state
unfolding update_state too_long_without_response
update_state_coded now c =
    rw (write_state-update_receiving, mark_unreliable_cases now c, mark_timeout_cases)
      (ground arith)

-- The write state after `update_state`, as a table.
abbrev pub next_write_state : ℕ → IceConnection → WriteState → WriteState
next_write_state now c state_writable =
    if fifth_overdue now c.rtt c.pings_since_last_response
      && first_overdue 5000 now c.pings_since_last_response
    then if first_overdue 15000 now c.pings_since_last_response
      then state_write_timeout
      else state_write_unreliable
    else state_writable
next_write_state now c state_write_unreliable =
    if first_overdue 15000 now c.pings_since_last_response
    then state_write_timeout
    else state_write_unreliable
next_write_state now c state_write_init =
    if first_overdue 15000 now c.pings_since_last_response
    then state_write_timeout
    else state_write_init
next_write_state now c state_write_timeout = state_write_timeout

coded_write_state_lem :
    (now : ℕ) (c : IceConnection) (s : WriteState)
    → coded_write_state now c s ≡ next_write_state now c s
coded_write_state_lem now c state_writable =
    rw (fifth_overdue_lem now c, first_overdue_lem 5000 now c, first_overdue_lem 15000 now c) refl
coded_write_state_lem now c state_write_unreliable = rw (first_overdue_lem 15000 now c) refl
coded_write_state_lem now c state_write_init = rw (first_overdue_lem 15000 now c) refl
coded_write_state_lem now c state_write_timeout = refl

-- In all branches, `update_state` takes the write state to the one of the table: a writable
-- connection becomes unreliable when its fifth unanswered ping is overdue by twice the round-trip
-- time, at least 100 and at most 60000 milliseconds, and its first by 5 seconds, and times out in
-- the same call if the first is overdue by 15 seconds; an unreliable or a new one times out when its
-- first unanswered ping is overdue by 15 seconds; one that timed out stays so.
pub update_state_write_state :
    (now : ℕ) (c : IceConnection)
    → (update_state now c).0.write_state ≡ next_write_state now c c.write_state
update_state_write_state now c =
    update_state_coded now c ∙ coded_write_state_lem now c c.write_state

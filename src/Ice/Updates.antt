-- ===== src/Ice/Updates.antt =====
-- `IceTransportChannel::_update_state` of ice/ice_transport_channel.cpp: what the channel says of itself.
use mathlib.Core.List.{Memᴰ}
use mathlib.Core.List.Memᴰ
use web_rtcserver.Prelude.{
  ℕ, ◌≡◌, ◌≢◌, ◌↔◌, refl, sym, ap, ◌∙◌, Bool, true, false, not, ◌&&◌, ◌||◌, List, [], ◌∷◌, ◌++◌,
  Option-cases, some, arith, Bool-cases, inl, inr,
}
use web_rtcserver.Pc.TransportController.{IceState}
use web_rtcserver.Ice.Connection.{IceConnection, state_writable, state_write_timeout, active}
use web_rtcserver.Ice.Controller.{any_connection}
use web_rtcserver.Ice.Channel.{
  Channel, writable_state, receiving_state, set_writable, compute_ice_transport_state,
  selected_writable, channel_update_state,
}
use web_rtcserver.Ice.Reports.{
  changed, changed_state, set_writable_lem, set_receiving_lem, set_state_lem,
}

-- The state of a channel by what it had and has: a connection ever, an active connection, ever been
-- writable, writable.
abbrev pub described_ice_state : Bool → Bool → Bool → Bool → IceState
described_ice_state true false been w = IceState.failed
described_ice_state had true true false = IceState.disconnected
described_ice_state false false true false = IceState.disconnected
described_ice_state false false false w = IceState.new
described_ice_state false false true true = IceState.new
described_ice_state had true false false = IceState.checking
described_ice_state had true been true = IceState.connected

-- The loop over the connections finds one exactly if there is one.
any_connection_iff :
    (p : ℕ → Bool) (xs : List ℕ)
    → (any_connection p xs ≡ true) ↔ ((x : ℕ) × Memᴰ x xs × (p x ≡ true))
unfolding any_connection
any_connection_iff p [] =
    (λ e. ground (arith, e), λ k. let (x, m, e) = k in absurd (Memᴰ.not-nil m))
any_connection_iff p (y ∷ ys) = elim (Bool-cases (p y)) [
  | inl t ↦ simp (any_connection, t) (λ e. (y, Memᴰ.head refl, t), λ k. refl)
  | inr t ↦
      let (found, there) = any_connection_iff p ys in
      simp (any_connection, t)
        (
          λ e. let (x, m, h) = found e in (x, Memᴰ.tail m, h),
          λ k.
              let (x, m, h) = k in
              elim (Memᴰ.cases_cons m) [
                | inl same ↦ absurd (ground (arith, t, sym (ap p same) ∙ h))
                | inr more ↦ there (x, more, h)
              ],
        )
]

active_iff_lem : (c : IceConnection) → (active c ≡ true) ↔ (c.write_state ≢ state_write_timeout)
unfolding active
active_iff_lem c = ground arith

compute_ice_transport_state_lem :
    (ch : Channel)
    → compute_ice_transport_state ch
      ≡ described_ice_state ch.had_connection
          (any_connection (λ x. active (ch.heap x)) ch.controller.connections)
          ch.has_been_connection
          ch.is_writable
unfolding compute_ice_transport_state
compute_ice_transport_state_lem ch = ground arith

set_writable-been :
    (w : Bool) (ch : Channel)
    → (set_writable w ch).has_been_connection
      ≡ (ch.has_been_connection || (not ch.is_writable && w))
unfolding set_writable
set_writable-been w ch = ground arith

selected_writable_iff :
    (ch : Channel)
    → (selected_writable ch ≡ true)
      ↔ ((s : ℕ) × (ch.selected_connection ≡ some s) × ((ch.heap s).write_state ≡ state_writable))
unfolding selected_writable
selected_writable_iff ch = elim (Option-cases ch.selected_connection) [
  | inl e ↦ rw e (λ h. ground (arith, h), λ k. let (s, at, h) = k in ground (arith, at))
  | inr (s, e) ↦ rw e (
    λ h. (s, refl, ground (arith, h)),
    λ k.
        let (t, at, h) = k in
        let same : s ≡ t = ground (arith, at) in rw (ap ch.heap same) (ground (arith, h)),
  )
]

-- What `_update_state` makes of a channel: it is writable exactly if its selected connection is,
-- and receiving exactly if one of its connections is; it was ever writable if it was before, or is
-- now and was not before the call; its state is the one described, and the signals are the changes,
-- newest first.
pub record IsUpdated (before after : Channel) : Type 0 where
  pub writable_iff : (after.is_writable ≡ true) ↔ (
      (s : ℕ) × (before.selected_connection ≡ some s)
      × ((before.heap s).write_state ≡ state_writable))
  pub receiving_iff :
      (after.receiving ≡ true)
      ↔ ((x : ℕ) × Memᴰ x before.controller.connections × ((before.heap x).receiving ≡ true))
  pub been :
      after.has_been_connection
      ≡ (before.has_been_connection || (not before.is_writable && after.is_writable))
  pub has_active : Bool
  pub active_iff : (has_active ≡ true) ↔ (
      (x : ℕ) × Memᴰ x before.controller.connections
      × ((before.heap x).write_state ≢ state_write_timeout))
  pub state_is :
      after.state
      ≡ described_ice_state before.had_connection has_active after.has_been_connection
          after.is_writable
  pub signals_are :
      after.signals
      ≡ changed_state before.state after.state
        ++ (changed before.receiving after.receiving (receiving_state after.receiving)
            ++ (changed before.is_writable after.is_writable (writable_state after.is_writable)
                ++ before.signals))

-- `_update_state` brings the channel up to date in each of these, and signals the changes and nothing
-- else.
pub channel_update_state_lem : (ch : Channel) → IsUpdated ch (channel_update_state ch)
unfolding channel_update_state
channel_update_state_lem ch =
    let w = selected_writable_iff ch in
    let r = any_connection_iff (λ x. (ch.heap x).receiving) ch.controller.connections in
    let a = any_connection_iff (λ x. active (ch.heap x)) ch.controller.connections in
    rw (set_state_lem, set_receiving_lem, set_writable_lem)
      (record {
        writable_iff = w;
        receiving_iff = r;
        been = set_writable-been (selected_writable ch) ch;
        has_active = any_connection (λ x. active (ch.heap x)) ch.controller.connections;
        active_iff = (
          λ e. let (x, m, h) = a.0 e in (x, m, (active_iff_lem (ch.heap x)).0 h),
          λ k. let (x, m, h) = k in a.1 (x, m, (active_iff_lem (ch.heap x)).1 h),
        );
        state_is = compute_ice_transport_state_lem (record ch {
          has_been_connection = (set_writable (selected_writable ch) ch).has_been_connection;
          is_writable = selected_writable ch;
        });
        signals_are = refl;
      })

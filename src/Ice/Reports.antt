-- ===== src/Ice/Reports.antt =====
-- What the channel of ice/ice_transport_channel.cpp reports, and what its controller keeps.
use web_rtcserver.Prelude.{
  ℕ, ◌≡◌, refl, sym, ap, ◌∙◌, Bool, true, false, List, [], ◌∷◌, ◌++◌, none, some, arith, ◌==◌,
  ==_refl, if◌then◌else◌, Bool-cases, inl, inr,
}
use web_rtcserver.Pc.TransportController.{IceState, ice_code}
use web_rtcserver.Ice.Connection.{same_bool}
use web_rtcserver.Ice.Controller.{
  on_connection_destroyed, sort_and_switch_connection, sort, erase_first, has_pingable_connection,
}
use web_rtcserver.Ice.Channel.{
  Signal, writable_state, receiving_state, ice_state_changed, Channel, set_writable, set_receiving,
  set_state, channel_update_state, channel_on_connection_destroyed, switch_selected_connection,
  deselect, sort_connection_and_update_state, maybe_switch_selected_connection, maybe_start_pinging,
}

-- The signal of a flag, where it changed.
abbrev pub changed : Bool → Bool → Signal → List Signal
changed old new s = if same_bool old new then [] else s ∷ []

abbrev pub changed_state : IceState → IceState → List Signal
changed_state before after =
    if ice_code after == ice_code before then [] else ice_state_changed after ∷ []

same_bool→eq : (a b : Bool) → same_bool a b ≡ true → a ≡ b
same_bool→eq true b e = ground arith
same_bool→eq false b e = ground arith

ice_code→eq : (s t : IceState) → (ice_code s == ice_code t) ≡ true → s ≡ t
ice_code→eq s t e = ground arith

pub set_writable_lem :
    (w : Bool) (ch : Channel)
    → set_writable w ch ≡ record ch {
      has_been_connection = (set_writable w ch).has_been_connection;
      is_writable = w;
      signals = changed ch.is_writable w (writable_state w) ++ ch.signals;
    }
unfolding set_writable
set_writable_lem w ch = elim (Bool-cases (same_bool ch.is_writable w)) [
  | inl e ↦ rw (e, sym (same_bool→eq ch.is_writable w e)) refl
  | inr e ↦ rw e refl
]

pub set_receiving_lem :
    (r : Bool) (ch : Channel)
    → set_receiving r ch ≡ record ch {
      receiving = r;
      signals = changed ch.receiving r (receiving_state r) ++ ch.signals;
    }
unfolding set_receiving
set_receiving_lem r ch = elim (Bool-cases (same_bool ch.receiving r)) [
  | inl e ↦ rw (e, sym (same_bool→eq ch.receiving r e)) refl
  | inr e ↦ rw e refl
]

pub set_state_lem :
    (s : IceState) (ch : Channel)
    → set_state s ch ≡ record ch { state = s; signals = changed_state ch.state s ++ ch.signals }
unfolding set_state
set_state_lem s ch = elim (Bool-cases (ice_code s == ice_code ch.state)) [
  | inl e ↦ rw (e, ice_code→eq s ch.state e) refl
  | inr e ↦ rw e refl
]

channel_update_state_keeps :
    (ch : Channel)
    → ((channel_update_state ch).selected_connection ≡ ch.selected_connection)
      × ((channel_update_state ch).controller ≡ ch.controller)
unfolding channel_update_state
channel_update_state_keeps ch = rw (set_state_lem, set_receiving_lem, set_writable_lem) (refl, refl)

maybe_start_pinging_keeps :
    (now : ℕ) (ch : Channel)
    → ((maybe_start_pinging now ch).selected_connection ≡ ch.selected_connection)
      × ((maybe_start_pinging now ch).controller ≡ ch.controller)
unfolding maybe_start_pinging
maybe_start_pinging_keeps now ch = elim (Bool-cases ch.start_pinging) [
  | inl e ↦ rw e (refl, refl)
  | inr e ↦ elim (Bool-cases (has_pingable_connection ch.heap now ch.controller)) [
    | inl f ↦ rw (e, f) (refl, refl)
    | inr f ↦ rw (e, f) (refl, refl)
  ]
]

-- Sorting no connection at all.
sort_and_update_empty :
    (now : ℕ) (ch : Channel)
    → ch.controller.connections ≡ []
    → let after = sort_connection_and_update_state now ch in
      (after.selected_connection ≡ ch.selected_connection)
      × (after.controller ≡ record ch.controller { connections = [] })
unfolding sort_connection_and_update_state sort_and_switch_connection sort
    maybe_switch_selected_connection
sort_and_update_empty now ch e =
    rw
      (
        (maybe_start_pinging_keeps now _).0,
        (maybe_start_pinging_keeps now _).1,
        (channel_update_state_keeps _).0,
        (channel_update_state_keeps _).1,
        e,
      )
      (refl, refl)

-- When the only connection of a channel is destroyed, which the channel and its controller hold as
-- selected, the channel selects none and the controller has no connection, but the controller
-- still holds it as selected.
pub destroyed_stays_selected :
    (now conn : ℕ) (ch : Channel)
    → ch.controller.connections ≡ conn ∷ []
    → ch.selected_connection ≡ some conn
    → ch.controller.selected_connection ≡ some conn
    → let after = channel_on_connection_destroyed now conn ch in
      (after.selected_connection ≡ none)
      × (after.controller.connections ≡ [])
      × (after.controller.selected_connection ≡ some conn)
unfolding channel_on_connection_destroyed switch_selected_connection deselect
    on_connection_destroyed erase_first
destroyed_stays_selected now conn ch e s t =
    let gone : erase_first conn ch.controller.connections ≡ [] = rw (e, ==_refl conn) refl in
    let left : Channel = switch_selected_connection none (record ch {
      controller = on_connection_destroyed conn ch.controller;
      selected_connection = some conn;
    }) in
    rw (s, ==_refl conn) (emptied left gone refl t)
  where
    emptied :
        (ch1 : Channel)
        → ch1.controller.connections ≡ []
        → ch1.selected_connection ≡ none
        → ch1.controller.selected_connection ≡ some conn
        → let after = sort_connection_and_update_state now ch1 in
          (after.selected_connection ≡ none)
          × (after.controller.connections ≡ [])
          × (after.controller.selected_connection ≡ some conn)
    emptied ch1 e f t =
        let r = sort_and_update_empty now ch1 e in
        (r.0 ∙ f, ap (λ c. c.connections) r.1, ap (λ c. c.selected_connection) r.1 ∙ t)

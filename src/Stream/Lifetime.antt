-- ===== src/Stream/Lifetime.antt =====
-- The manager never holds a stream that was freed; which streams it loses.
use web_rtcserver.Prelude.{
  ℕ, ◌+◌, ◌≤◌, ◌≡◌, ◌≢◌, refl, Bool, List, [], ◌∷◌, Option, none, some, arith, ◌==◌, bytes_eq→eq,
  bytes_eq_refl, Bool-cases, Option-cases, inl, inr,
}
use web_rtcserver.Prelude.Maps.{lookup, insert, erase, lookup-insert, lookup-erase}
use web_rtcserver.Pc.TransportController.{PeerConnectionState}
use web_rtcserver.Stream.Manager.{
  StreamType, k_push, k_pull, Stream, Effect, Manager, set_alive, delete_stream, new_stream,
  find_push_stream, find_pull_stream, remove_push_stream, remove_pull_stream, create_push_stream,
  create_pull_stream, set_answer, AnswerType, push_answer, pull_answer, other_answer, stop_push,
  stop_pull, on_connection_state, on_rtp_packet_received, on_rtcp_packet_received,
  on_stream_exception, Call, creates_push, creates_pull, answers, answer_stream, forward,
  stops_push, stops_pull, reports, gets_rtp, gets_rtcp, times_out, step, run, new_manager,
}

-- Every stream in a map is alive, under the kind and the name by which the map holds it, and no
-- address beyond those given out is in use.
abbrev pub Holds : StreamType → List (List ℕ × Stream) → (ℕ → Option (StreamType × List ℕ)) → Type 0
Holds t streams alive =
    (name : List ℕ) (s : Stream) → lookup name streams ≡ some s → alive s.addr ≡ some (t, name)

pub record IsSafe (m : Manager) : Type 0 where
  pub push_alive : Holds k_push m.push_streams m.alive
  pub pull_alive : Holds k_pull m.pull_streams m.alive
  pub fresh : (a : ℕ) → m.next_addr ≤ a → m.alive a ≡ none

-- Freeing the stream that a map held, and dropping it from that map.
Holds-erase :
    (t : StreamType) (streams : List (List ℕ × Stream)) (alive : ℕ → Option (StreamType × List ℕ))
    (name : List ℕ) (old : Stream)
    → Holds t streams alive
    → lookup name streams ≡ some old
    → Holds t (erase name streams) (set_alive old.addr none alive)
unfolding set_alive
Holds-erase t streams alive name old h e name' s e' =
    ground (arith, lookup-erase name name' streams, h name old e, h name' s, bytes_eq_refl name)

-- The other map loses nothing by it.
Holds-delete :
    (t t' : StreamType) (streams : List (List ℕ × Stream))
    (alive : ℕ → Option (StreamType × List ℕ)) (name : List ℕ) (a : ℕ)
    → Holds t streams alive
    → alive a ≡ some (t', name)
    → t ≢ t'
    → Holds t streams (set_alive a none alive)
unfolding set_alive
Holds-delete t t' streams alive name a h e n name' s e' = ground (arith, h name' s e')

-- A new stream under its name.
Holds-insert :
    (t : StreamType) (streams : List (List ℕ × Stream)) (alive : ℕ → Option (StreamType × List ℕ))
    (name : List ℕ) (s : Stream)
    → Holds t streams alive
    → alive s.addr ≡ none
    → Holds t (insert name s streams) (set_alive s.addr (some (t, name)) alive)
unfolding set_alive
Holds-insert t streams alive name s h e name' s' e' =
    ground (arith, lookup-insert name name' s streams, h name' s', bytes_eq→eq name name')

Holds-new :
    (t : StreamType) (streams : List (List ℕ × Stream)) (alive : ℕ → Option (StreamType × List ℕ))
    (a : ℕ) (o : Option (StreamType × List ℕ))
    → Holds t streams alive
    → alive a ≡ none
    → Holds t streams (set_alive a o alive)
unfolding set_alive
Holds-new t streams alive a o h e name' s e' = ground (arith, h name' s e')

-- The addresses beyond `n` stay free.
set_alive-fresh :
    (alive : ℕ → Option (StreamType × List ℕ)) (n a : ℕ)
    → ((b : ℕ) → n ≤ b → alive b ≡ none)
    → (b : ℕ) → n ≤ b
    → set_alive a none alive b ≡ none
unfolding set_alive
set_alive-fresh alive n a h b p = ground (arith, h b)

set_alive-used :
    (alive : ℕ → Option (StreamType × List ℕ)) (n : ℕ) (o : Option (StreamType × List ℕ))
    → ((b : ℕ) → n ≤ b → alive b ≡ none)
    → (b : ℕ) → n + 1 ≤ b
    → set_alive n o alive b ≡ none
unfolding set_alive
set_alive-used alive n o h b p = ground (arith, h b)

-- Freeing the stream that `push_streams` or `pull_streams` holds under a name.
push_delete-IsSafe :
    (m : Manager) (name : List ℕ) (s : Stream)
    → IsSafe m
    → lookup name m.push_streams ≡ some s
    → IsSafe (delete_stream s (record m { push_streams = erase name m.push_streams }))
unfolding delete_stream
push_delete-IsSafe m name s safe e = record {
  push_alive = Holds-erase k_push m.push_streams m.alive name s safe.push_alive e;
  pull_alive =
      Holds-delete k_pull k_push m.pull_streams m.alive name s.addr safe.pull_alive
        (safe.push_alive name s e) (λ p. ground arith);
  fresh = set_alive-fresh m.alive m.next_addr s.addr safe.fresh;
}

pull_delete-IsSafe :
    (m : Manager) (name : List ℕ) (s : Stream)
    → IsSafe m
    → lookup name m.pull_streams ≡ some s
    → IsSafe (delete_stream s (record m { pull_streams = erase name m.pull_streams }))
unfolding delete_stream
pull_delete-IsSafe m name s safe e = record {
  push_alive =
      Holds-delete k_push k_pull m.push_streams m.alive name s.addr safe.push_alive
        (safe.pull_alive name s e) (λ p. ground arith);
  pull_alive = Holds-erase k_pull m.pull_streams m.alive name s safe.pull_alive e;
  fresh = set_alive-fresh m.alive m.next_addr s.addr safe.fresh;
}

remove_push_stream-IsSafe :
    (uid : ℕ) (name : List ℕ) (m : Manager) → IsSafe m → IsSafe (remove_push_stream uid name m)
unfolding remove_push_stream find_push_stream
remove_push_stream-IsSafe uid name m safe = elim (Option-cases (lookup name m.push_streams)) [
  | inl e ↦ rw (remove_push_stream, find_push_stream, e) safe
  | inr (s, e) ↦ elim (Bool-cases (uid == s.uid)) [
    | inl q ↦ rw (remove_push_stream, find_push_stream, e, q) (push_delete-IsSafe m name s safe e)
    | inr q ↦ rw (remove_push_stream, find_push_stream, e, q) safe
  ]
]

remove_pull_stream-IsSafe :
    (uid : ℕ) (name : List ℕ) (m : Manager) → IsSafe m → IsSafe (remove_pull_stream uid name m)
unfolding remove_pull_stream find_pull_stream
remove_pull_stream-IsSafe uid name m safe = elim (Option-cases (lookup name m.pull_streams)) [
  | inl e ↦ rw (remove_pull_stream, find_pull_stream, e) safe
  | inr (s, e) ↦ elim (Bool-cases (uid == s.uid)) [
    | inl q ↦ rw (remove_pull_stream, find_pull_stream, e, q) (pull_delete-IsSafe m name s safe e)
    | inr q ↦ rw (remove_pull_stream, find_pull_stream, e, q) safe
  ]
]

-- A stream that `new` makes goes into the map of its kind.
push_new-IsSafe :
    (m : Manager) (name : List ℕ) (s : Stream) (effects : List Effect)
    → IsSafe m
    → s.addr ≡ m.next_addr
    → IsSafe (record m {
      push_streams = insert name s m.push_streams;
      alive = set_alive s.addr (some (k_push, name)) m.alive;
      next_addr = s.addr + 1;
      effects = effects;
    })
push_new-IsSafe m name s effects safe at = record {
  push_alive =
      Holds-insert k_push m.push_streams m.alive name s safe.push_alive
        (safe.fresh s.addr (omega arith));
  pull_alive =
      Holds-new k_pull m.pull_streams m.alive s.addr (some (k_push, name)) safe.pull_alive
        (safe.fresh s.addr (omega arith));
  fresh = set_alive-used m.alive s.addr (some (k_push, name)) (λ b h. safe.fresh b (omega arith));
}

pull_new-IsSafe :
    (m : Manager) (name : List ℕ) (s : Stream) (effects : List Effect)
    → IsSafe m
    → s.addr ≡ m.next_addr
    → IsSafe (record m {
      pull_streams = insert name s m.pull_streams;
      alive = set_alive s.addr (some (k_pull, name)) m.alive;
      next_addr = s.addr + 1;
      effects = effects;
    })
pull_new-IsSafe m name s effects safe at = record {
  push_alive =
      Holds-new k_push m.push_streams m.alive s.addr (some (k_pull, name)) safe.push_alive
        (safe.fresh s.addr (omega arith));
  pull_alive =
      Holds-insert k_pull m.pull_streams m.alive name s safe.pull_alive
        (safe.fresh s.addr (omega arith));
  fresh = set_alive-used m.alive s.addr (some (k_pull, name)) (λ b h. safe.fresh b (omega arith));
}

create_push_stream-IsSafe :
    (uid : ℕ) (name : List ℕ) (audio video : Bool) (m : Manager)
    → IsSafe m
    → IsSafe (create_push_stream uid name audio video m)
unfolding create_push_stream find_push_stream new_stream delete_stream
create_push_stream-IsSafe uid name audio video m safe =
    elim (Option-cases (lookup name m.push_streams)) [
      | inl e ↦ rw (create_push_stream, find_push_stream, e) (push_new-IsSafe m name _ _ safe refl)
      | inr (s, e) ↦
          rw (create_push_stream, find_push_stream, e)
            (push_new-IsSafe _ name _ _ (push_delete-IsSafe m name s safe e) refl)
    ]

create_pull_stream-IsSafe :
    (get_source : Stream → Bool → List ℕ) (uid : ℕ) (name : List ℕ) (audio video : Bool)
    (m : Manager)
    → IsSafe m
    → IsSafe (create_pull_stream get_source uid name audio video m).0
unfolding create_pull_stream find_push_stream new_stream
create_pull_stream-IsSafe get_source uid name audio video m safe =
    elim (Option-cases (lookup name m.push_streams)) [
      | inl e ↦ rw (create_pull_stream, find_push_stream, e) safe
      | inr (s, e) ↦
          rw (create_pull_stream, find_push_stream, e)
            (pull_new-IsSafe _ name _ _ (remove_pull_stream-IsSafe uid name m safe) refl)
    ]

-- What is recorded for the peer connections does not matter.
effects-IsSafe : (m : Manager) (es : List Effect) → IsSafe m → IsSafe (record m { effects = es })
effects-IsSafe m es safe = record {
  push_alive = safe.push_alive;
  pull_alive = safe.pull_alive;
  fresh = safe.fresh;
}

forward-IsSafe :
    (o : Option Stream) (e : ℕ → Effect) (m : Manager) → IsSafe m → IsSafe (forward o e m)
unfolding forward
forward-IsSafe none e m safe = safe
forward-IsSafe (some s) e m safe = effects-IsSafe m _ safe

answer_stream-IsSafe :
    (uid : ℕ) (sdp : List ℕ) (o : Option Stream) (m : Manager)
    → IsSafe m
    → IsSafe (answer_stream uid sdp o m).0
unfolding answer_stream
answer_stream-IsSafe uid sdp none m safe = safe
answer_stream-IsSafe uid sdp (some s) m safe = elim (Bool-cases (uid == s.uid)) [
  | inl q ↦ rw q (effects-IsSafe m _ safe)
  | inr q ↦ rw q safe
]

set_answer-IsSafe :
    (uid : ℕ) (name sdp : List ℕ) (type : AnswerType) (m : Manager)
    → IsSafe m
    → IsSafe (set_answer uid name sdp type m).0
unfolding set_answer
set_answer-IsSafe uid name sdp push_answer m safe = answer_stream-IsSafe uid sdp _ m safe
set_answer-IsSafe uid name sdp pull_answer m safe = answer_stream-IsSafe uid sdp _ m safe
set_answer-IsSafe uid name sdp other_answer m safe = safe

on_connection_state-IsSafe :
    (s : Stream) (state : PeerConnectionState) (m : Manager)
    → IsSafe m
    → IsSafe (on_connection_state s state m)
unfolding on_connection_state
on_connection_state-IsSafe s PeerConnectionState.failed m safe =
    remove_push_stream-IsSafe s.uid s.stream_name m safe
on_connection_state-IsSafe s PeerConnectionState.new m safe = safe
on_connection_state-IsSafe s PeerConnectionState.connecting m safe = safe
on_connection_state-IsSafe s PeerConnectionState.connected m safe = safe
on_connection_state-IsSafe s PeerConnectionState.disconnected m safe = safe
on_connection_state-IsSafe s PeerConnectionState.closed m safe = safe

-- A callback does one thing for a publisher and another for a player.
by_type-IsSafe :
    (t : StreamType) (m n : Manager)
    → IsSafe m
    → IsSafe n
    → IsSafe (elim t [ k_push ↦ m | k_pull ↦ n ])
by_type-IsSafe k_push m n p q = p
by_type-IsSafe k_pull m n p q = q

step-IsSafe :
    (get_source : Stream → Bool → List ℕ) (m : Manager) (c : Call)
    → IsSafe m
    → IsSafe (step get_source m c)
unfolding step stop_push stop_pull on_rtp_packet_received on_rtcp_packet_received
    on_stream_exception
step-IsSafe f m (creates_push uid name audio video) safe =
    create_push_stream-IsSafe uid name audio video m safe
step-IsSafe f m (creates_pull uid name audio video) safe =
    create_pull_stream-IsSafe f uid name audio video m safe
step-IsSafe f m (answers uid name sdp type) safe = set_answer-IsSafe uid name sdp type m safe
step-IsSafe f m (stops_push uid name) safe = remove_push_stream-IsSafe uid name m safe
step-IsSafe f m (stops_pull uid name) safe = remove_pull_stream-IsSafe uid name m safe
step-IsSafe f m (reports s state) safe = on_connection_state-IsSafe s state m safe
step-IsSafe f m (gets_rtp s packet) safe =
    by_type-IsSafe s.stream_type _ m (forward-IsSafe _ _ m safe) safe
step-IsSafe f m (gets_rtcp s packet) safe =
    by_type-IsSafe s.stream_type _ _ (forward-IsSafe _ _ m safe) (forward-IsSafe _ _ m safe)
step-IsSafe f m (times_out s) safe =
    by_type-IsSafe s.stream_type _ _ (remove_push_stream-IsSafe s.uid s.stream_name m safe)
      (remove_pull_stream-IsSafe s.uid s.stream_name m safe)

run-keeps_IsSafe :
    (get_source : Stream → Bool → List ℕ) (cs : List Call) (m : Manager)
    → IsSafe m
    → IsSafe (run get_source m cs)
unfolding run
run-keeps_IsSafe f [] m safe = safe
run-keeps_IsSafe f (c ∷ cs) m safe = run-keeps_IsSafe f cs (step f m c) (step-IsSafe f m c safe)

new_manager-IsSafe : IsSafe new_manager
unfolding new_manager lookup
new_manager-IsSafe = record {
  push_alive = λ name s e. ground arith;
  pull_alive = λ name s e. ground arith;
  fresh = λ a h. refl;
}

-- Whatever calls reach a new manager, in whatever order, each stream that its maps hold is alive,
-- as a stream of the kind and name under which it is held, and no address beyond those given out
-- is in use.
pub run-IsSafe :
    (get_source : Stream → Bool → List ℕ) (cs : List Call) → IsSafe (run get_source new_manager cs)
run-IsSafe f cs = run-keeps_IsSafe f cs new_manager new_manager-IsSafe

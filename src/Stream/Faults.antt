-- ===== src/Stream/Faults.antt =====
-- Two calls of stream/rtc_stream_manager.cpp that take the wrong stream, or lose one.
use web_rtcserver.Prelude.{
  ℕ, ◌≤◌, ◌≡◌, ◌≢◌, refl, Bool, true, false, List, Option, none, some, arith, ◌==◌, bytes_eq_refl,
}
use web_rtcserver.Prelude.Maps.{lookup, lookup-insert, lookup-erase}
use web_rtcserver.Pc.TransportController.{PeerConnectionState}
use web_rtcserver.Stream.Manager.{
  StreamType, k_pull, Stream, Manager, set_alive, delete_stream, new_stream, find_push_stream,
  find_pull_stream, remove_push_stream, remove_pull_stream, create_pull_stream, on_connection_state,
}
use web_rtcserver.Stream.Lifetime.{IsSafe}

-- In a safe manager: when a player fails that is held under its name, and the publisher of that
-- name is of the same user, the publisher is freed and gone from its map, and the player stays,
-- alive and in its map.
pub failed_pull_ends_push :
    (m : Manager) (s p : Stream)
    → IsSafe m
    → find_pull_stream s.stream_name m ≡ some s
    → find_push_stream s.stream_name m ≡ some p
    → s.uid ≡ p.uid
    → (find_push_stream s.stream_name (on_connection_state s PeerConnectionState.failed m) ≡ none)
      × (find_pull_stream s.stream_name (on_connection_state s PeerConnectionState.failed m)
          ≡ some s)
      × ((on_connection_state s PeerConnectionState.failed m).alive p.addr ≡ none)
      × ((on_connection_state s PeerConnectionState.failed m).alive s.addr
          ≡ some (k_pull, s.stream_name))
unfolding on_connection_state remove_push_stream find_push_stream find_pull_stream delete_stream
    set_alive
failed_pull_ends_push m s p safe e f same = ground (
  arith,
  safe.push_alive s.stream_name p f,
  safe.pull_alive s.stream_name s e,
  lookup-erase s.stream_name s.stream_name m.push_streams,
  bytes_eq_refl s.stream_name,
)

-- In a safe manager: when a user asks for a published stream that another user plays, the new
-- player takes the place in the map, and the other user's stream stays alive at another address.
pub create_pull_stream_loses :
    (get_source : Stream → Bool → List ℕ) (m : Manager) (uid : ℕ) (name : List ℕ)
    (audio video : Bool) (p old : Stream)
    → IsSafe m
    → lookup name m.push_streams ≡ some p
    → lookup name m.pull_streams ≡ some old
    → uid ≢ old.uid
    → (s : Stream) × (find_pull_stream name (create_pull_stream get_source uid name audio video m).0
        ≡ some s)
      × (s.uid ≡ uid)
      × (s.addr ≢ old.addr)
      × ((create_pull_stream get_source uid name audio video m).0.alive old.addr
          ≡ some (k_pull, name))
unfolding create_pull_stream find_push_stream find_pull_stream new_stream remove_pull_stream
    set_alive
create_pull_stream_loses f m uid name audio video p old safe e g differ =
    let s : Stream = record {
      addr = m.next_addr;
      stream_type = k_pull;
      uid = uid;
      stream_name = name;
      audio = audio;
      video = video;
      audio_source = f p true;
      video_source = f p false;
    } in
    rw
      (
        create_pull_stream,
        find_push_stream,
        e,
        remove_pull_stream,
        find_pull_stream,
        g,
        not_own uid old.uid differ,
      )
      (
        s,
        rw (lookup-insert name name s m.pull_streams, bytes_eq_refl name) refl,
        refl,
        used m.alive m.next_addr old.addr name safe.fresh (safe.pull_alive name old g),
        kept m.alive m.next_addr old.addr name _ safe.fresh (safe.pull_alive name old g),
      )
  where
    not_own : (a b : ℕ) → a ≢ b → (a == b) ≡ false
    not_own a b h = ground arith

    used :
        (alive : ℕ → Option (StreamType × List ℕ)) (n a : ℕ) (name : List ℕ)
        → ((b : ℕ) → n ≤ b → alive b ≡ none)
        → alive a ≡ some (k_pull, name)
        → n ≢ a
    used alive n a name h q r = ground (arith, h a (omega arith))

    kept :
        (alive : ℕ → Option (StreamType × List ℕ)) (n a : ℕ) (name : List ℕ)
        (o : Option (StreamType × List ℕ))
        → ((b : ℕ) → n ≤ b → alive b ≡ none)
        → alive a ≡ some (k_pull, name)
        → set_alive n o alive a ≡ some (k_pull, name)
    kept alive n a name o h q = ground (arith, h a)

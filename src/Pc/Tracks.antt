-- ===== src/Pc/Tracks.antt =====
-- Of pc/peer_connection.cpp: the tracks that the ssrc lines of an answer give.
use web_rtcserver.Prelude.{
  ℕ, suc, ◌≤◌, ◌≡◌, refl, sym, ap, ◌∙◌, Bool, true, false, List, [], ◌∷◌, ◌++◌, arith, inl, inr,
  Bool-cases, bytes_eq, bytes_eq→eq, bytes_eq_refl, if◌then◌else◌, append-nil, append_assoc,
}
use web_rtcserver.Pc.SdpLines.{
  SsrcInfo, StreamParams, add_to_track, create_track_from_ssrc_info, audio_streams,
}

-- The ssrcs of the first track with an id, and how many tracks have it.
abbrev pub ssrcs_named : List ℕ → List StreamParams → List ℕ
ssrcs_named name [] = []
ssrcs_named name (track ∷ tracks) =
    if bytes_eq track.id name then track.ssrcs else ssrcs_named name tracks

abbrev pub count_named : List ℕ → List StreamParams → ℕ
count_named name [] = 0
count_named name (track ∷ tracks) =
    if bytes_eq track.id name then suc (count_named name tracks) else count_named name tracks

-- The ssrcs whose lines name a track, in order.
abbrev pub ssrcs_of : List ℕ → List SsrcInfo → List ℕ
ssrcs_of name [] = []
ssrcs_of name (info ∷ infos) =
    if bytes_eq info.track_id name then info.ssrc_id ∷ ssrcs_of name infos else ssrcs_of name infos

apart : (a b c : List ℕ) → bytes_eq a b ≡ false → bytes_eq a c ≡ true → bytes_eq b c ≡ false
apart a b c e f = elim (Bool-cases (bytes_eq b c)) [
  | inl g ↦
      let same : a ≡ b = bytes_eq→eq a c f ∙ sym (bytes_eq→eq b c g) in
      let equal : bytes_eq a b ≡ true = sym (ap (bytes_eq a) same) ∙ bytes_eq_refl a in
      absurd (ground (arith, equal, e))
  | inr g ↦ g
]

add_to_track-ssrcs :
    (name : List ℕ) (info : SsrcInfo) (tracks : List StreamParams)
    → ssrcs_named name (add_to_track info tracks)
      ≡ ssrcs_named name tracks ++ (if bytes_eq info.track_id name then info.ssrc_id ∷ [] else [])
unfolding add_to_track
add_to_track-ssrcs name info [] = ground arith
add_to_track-ssrcs name info (track ∷ tracks) =
    elim (Bool-cases (bytes_eq track.id info.track_id)) [
      | inl e ↦
          let as_track : bytes_eq info.track_id name ≡ bytes_eq track.id name =
            ap (λ i. bytes_eq i name) (sym (bytes_eq→eq track.id info.track_id e)) in
          elim (Bool-cases (bytes_eq track.id name)) [
            | inl n ↦ simp (add_to_track, e, n, as_track ∙ n)
            | inr n ↦ simp (add_to_track, e, n, as_track ∙ n) (sym (append-nil _))
          ]
      | inr e ↦ elim (Bool-cases (bytes_eq track.id name)) [
        | inl n ↦
            simp (add_to_track, e, n, apart track.id info.track_id name e n) (sym (append-nil _))
        | inr n ↦ simp (add_to_track, e, n) (add_to_track-ssrcs name info tracks)
      ]
    ]

count_other :
    (name : List ℕ) (info : SsrcInfo) (tracks : List StreamParams)
    → bytes_eq info.track_id name ≡ false
    → count_named name (add_to_track info tracks) ≡ count_named name tracks
unfolding add_to_track
count_other name info [] h = simp (add_to_track, h)
count_other name info (track ∷ tracks) h = elim (Bool-cases (bytes_eq track.id info.track_id)) [
  | inl e ↦ simp (add_to_track, e)
  | inr e ↦ elim (Bool-cases (bytes_eq track.id name)) [
    | inl n ↦ simp (add_to_track, e, n) (ap suc (count_other name info tracks h))
    | inr n ↦ simp (add_to_track, e, n) (count_other name info tracks h)
  ]
]

add_to_track-count :
    (name : List ℕ) (info : SsrcInfo) (tracks : List StreamParams)
    → count_named name tracks ≤ 1
    → count_named name (add_to_track info tracks) ≤ 1
unfolding add_to_track
add_to_track-count name info [] h = ground arith
add_to_track-count name info (track ∷ tracks) h =
    elim (Bool-cases (bytes_eq track.id info.track_id)) [
      | inl e ↦ simp (add_to_track, e) h
      | inr e ↦ elim (Bool-cases (bytes_eq track.id name)) [
        | inl n ↦
            simp (add_to_track, e, n)
              (rw (count_other name info tracks (apart track.id info.track_id name e n))
                (simp (n) at h))
        | inr n ↦ simp (add_to_track, e, n) (add_to_track-count name info tracks (simp (n) at h))
      ]
    ]

create_track-ssrcs :
    (name : List ℕ) (infos : List SsrcInfo) (tracks : List StreamParams)
    → ssrcs_named name (create_track_from_ssrc_info infos tracks)
      ≡ ssrcs_named name tracks ++ ssrcs_of name infos
unfolding create_track_from_ssrc_info
create_track-ssrcs name [] tracks = sym (append-nil _)
create_track-ssrcs name (info ∷ infos) tracks =
    create_track-ssrcs name infos (add_to_track info tracks)
    ∙ ap (λ l. l ++ ssrcs_of name infos) (add_to_track-ssrcs name info tracks)
    ∙ append_assoc (ssrcs_named name tracks) _ (ssrcs_of name infos)
    ∙ ap (λ l. ssrcs_named name tracks ++ l) (one_more (bytes_eq info.track_id name))
  where
    one_more :
        (b : Bool)
        → (if b then info.ssrc_id ∷ [] else []) ++ ssrcs_of name infos
          ≡ (if b then info.ssrc_id ∷ ssrcs_of name infos else ssrcs_of name infos)
    one_more true = refl
    one_more false = refl

create_track-count :
    (name : List ℕ) (infos : List SsrcInfo) (tracks : List StreamParams)
    → count_named name tracks ≤ 1
    → count_named name (create_track_from_ssrc_info infos tracks) ≤ 1
unfolding create_track_from_ssrc_info
create_track-count name [] tracks h = h
create_track-count name (info ∷ infos) tracks h =
    create_track-count name infos (add_to_track info tracks) (add_to_track-count name info tracks h)

-- The ssrc lines of an answer make at most one track of each id, and its ssrcs are those whose lines
-- name the track, in their order.
pub audio_streams-grouped :
    (name : List ℕ) (infos : List SsrcInfo)
    → (count_named name (audio_streams infos) ≤ 1)
      × (ssrcs_named name (audio_streams infos) ≡ ssrcs_of name infos)
unfolding audio_streams
audio_streams-grouped name infos =
    (create_track-count name infos [] (omega arith), create_track-ssrcs name infos [])

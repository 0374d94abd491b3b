-- ===== src/Pc/VideoTracks.antt =====
-- Of pc/peer_connection.cpp: the streams that the video content gets from the ssrc groups.
use web_rtcserver.Prelude.{
  ℕ, ◌≡◌, refl, sym, ap, ◌∙◌, Bool, true, false, ◌||◌, List, [], ◌∷◌, ◌++◌, map, arith, inl, inr,
  Bool-cases, List-cases, is_empty, if◌then◌else◌, append-nil, append_assoc, ◌==◌,
}
use mathlib.Core.Path.{ap₂}
use web_rtcserver.Pc.SdpLines.{
  SsrcInfo, SsrcGroup, StreamParams, has_ssrc, create_track_from_ssrc_info, add_group,
  add_video_streams, video_streams,
}

abbrev pub is_among : ℕ → List ℕ → Bool
is_among x [] = false
is_among x (y ∷ ys) = x == y || is_among x ys

-- The groups whose first ssrc is one of these.
abbrev pub groups_naming : List ℕ → List SsrcGroup → List SsrcGroup
groups_naming ssrcs [] = []
groups_naming ssrcs (group ∷ groups) = elim group.group_ssrcs [
  | [] ↦ groups_naming ssrcs groups
  | (ssrc ∷ rest) ↦
      if is_among ssrc ssrcs then group ∷ groups_naming ssrcs groups else groups_naming ssrcs groups
]

-- A track with its own groups among those read so far.
abbrev pub with_groups : List SsrcGroup → StreamParams → StreamParams
with_groups groups track = record track {
  ssrc_groups = track.ssrc_groups ++ groups_naming track.ssrcs groups;
}

-- All tracks, once for each group that names an ssrc, with the groups up to that one.
abbrev pub copies : List SsrcGroup → List SsrcGroup → List StreamParams → List StreamParams
copies before [] tracks = []
copies before (group ∷ groups) tracks =
    if is_empty group.group_ssrcs
    then copies before groups tracks
    else map (with_groups (before ++ group ∷ [])) tracks
      ++ copies (before ++ group ∷ []) groups tracks

has_ssrc-is_among : (ssrc : ℕ) (ssrcs : List ℕ) → has_ssrc ssrc ssrcs ≡ is_among ssrc ssrcs
unfolding has_ssrc
has_ssrc-is_among ssrc [] = refl
has_ssrc-is_among ssrc (s ∷ ssrcs) = ground (arith, has_ssrc-is_among ssrc ssrcs)

-- One group more.
groups_naming-last :
    (ssrcs : List ℕ) (before : List SsrcGroup) (group : SsrcGroup) (ssrc : ℕ) (rest : List ℕ)
    → group.group_ssrcs ≡ ssrc ∷ rest
    → groups_naming ssrcs (before ++ group ∷ [])
      ≡ groups_naming ssrcs before ++ (if is_among ssrc ssrcs then group ∷ [] else [])
groups_naming-last ssrcs [] group ssrc rest e = simp (e)
groups_naming-last ssrcs (g ∷ before) group ssrc rest e =
    let ih = groups_naming-last ssrcs before group ssrc rest e in
    elim (List-cases g.group_ssrcs) [
      | inl f ↦ simp (f) ih
      | inr (s, more, f) ↦ elim (Bool-cases (is_among s ssrcs)) [
        | inl t ↦ simp (f, t) (ap (λ l. g ∷ l) ih)
        | inr t ↦ simp (f, t) ih
      ]
    ]

add_group-with_groups :
    (before : List SsrcGroup) (group : SsrcGroup) (ssrc : ℕ) (rest : List ℕ)
    (tracks : List StreamParams)
    → group.group_ssrcs ≡ ssrc ∷ rest
    → add_group group ssrc (map (with_groups before) tracks)
      ≡ map (with_groups (before ++ group ∷ [])) tracks
unfolding add_group
add_group-with_groups before group ssrc rest [] e = refl
add_group-with_groups before group ssrc rest (track ∷ tracks) e =
    ap₂ ◌∷◌
      (one (is_among ssrc track.ssrcs) (has_ssrc-is_among ssrc track.ssrcs)
        (groups_naming-last track.ssrcs before group ssrc rest e))
      (add_group-with_groups before group ssrc rest tracks e)
  where
    one :
        (b : Bool)
        → has_ssrc ssrc track.ssrcs ≡ b
        → groups_naming track.ssrcs (before ++ group ∷ [])
          ≡ groups_naming track.ssrcs before ++ (if b then group ∷ [] else [])
        → (if has_ssrc ssrc track.ssrcs
            then record track {
              ssrc_groups = (track.ssrc_groups ++ groups_naming track.ssrcs before) ++ group ∷ [];
            }
            else with_groups before track)
          ≡ with_groups (before ++ group ∷ []) track
    one true h k =
        rw (h, k, append_assoc track.ssrc_groups (groups_naming track.ssrcs before) (group ∷ []))
          refl
    one false h k = rw (h, k, append-nil (groups_naming track.ssrcs before)) refl

add_video_streams-copies :
    (groups before : List SsrcGroup) (tracks streams : List StreamParams)
    → add_video_streams groups (map (with_groups before) tracks) streams
      ≡ streams ++ copies before groups tracks
unfolding add_video_streams
add_video_streams-copies [] before tracks streams = sym (append-nil streams)
add_video_streams-copies (group ∷ groups) before tracks streams =
    elim (List-cases group.group_ssrcs) [
      | inl e ↦ simp (add_video_streams, e) (add_video_streams-copies groups before tracks streams)
      | inr (ssrc, rest, e) ↦
          let next = map (with_groups (before ++ group ∷ [])) tracks in
          simp (add_video_streams, e, add_group-with_groups before group ssrc rest tracks e)
            (add_video_streams-copies groups (before ++ group ∷ []) tracks (streams ++ next)
              ∙ append_assoc streams next (copies (before ++ group ∷ []) groups tracks))
    ]

with_no_groups : (tracks : List StreamParams) → map (with_groups []) tracks ≡ tracks
with_no_groups [] = refl
with_no_groups (track ∷ tracks) =
    ap₂ ◌∷◌ (ap (λ gs. record track { ssrc_groups = gs }) (append-nil track.ssrc_groups))
      (with_no_groups tracks)

copies_of_none : (before groups : List SsrcGroup) → copies before groups [] ≡ []
copies_of_none before [] = refl
copies_of_none before (group ∷ groups) = elim (Bool-cases (is_empty group.group_ssrcs)) [
  | inl e ↦ rw e (copies_of_none before groups)
  | inr e ↦ rw e (copies_of_none (before ++ group ∷ []) groups)
]

-- The streams of the video content are, for each ssrc group that names an ssrc, in order, once all
-- the tracks that the ssrc lines make; each track with those of the groups up to that one whose
-- first ssrc is among its ssrcs. So without such a group there is none, and with two each track
-- is there twice.
pub video_streams-copies :
    (infos : List SsrcInfo) (groups : List SsrcGroup)
    → video_streams infos groups ≡ copies [] groups (create_track_from_ssrc_info infos [])
unfolding video_streams create_track_from_ssrc_info
video_streams-copies [] groups = sym (copies_of_none [] groups)
video_streams-copies (info ∷ infos) groups =
    let tracks = create_track_from_ssrc_info (info ∷ infos) [] in
    ap (λ ts. add_video_streams groups ts []) (sym (with_no_groups tracks))
    ∙ add_video_streams-copies groups [] tracks []

-- ===== src/Tests/Sdps.antt =====
-- The theorems on the answers of browsers at small inputs.
use web_rtcserver.Prelude.{
  ℕ, ◌≤◌, ◌≡◌, refl, List, [], ◌∷◌, ◌++◌, none, codes, ◌==◌, if◌then◌else◌, true,
}
use web_rtcserver.Pc.SdpLines.{
  SsrcInfo, SsrcGroup, TextLibrary, new_td, parsed, has_text, audio_streams, video_streams,
  create_track_from_ssrc_info,
}
use web_rtcserver.Pc.RemoteSdp.{RemoteDesc, set_remote_sdp}
use web_rtcserver.Pc.Tracks.{count_named, ssrcs_named, audio_streams-grouped}
use web_rtcserver.Pc.VideoTracks.{copies, video_streams-copies}
use web_rtcserver.Pc.Bundles.{set_remote_sdp_ungrouped}
use web_rtcserver.Tests.Plain.{plain}

abbrev an_info : ℕ → List ℕ → SsrcInfo
an_info ssrc track = record {
  ssrc_id = ssrc;
  info_cname = codes "c";
  info_stream_id = codes "s";
  track_id = track;
}

abbrev some_infos : List SsrcInfo
some_infos = an_info 1 (codes "a") ∷ an_info 2 (codes "b") ∷ an_info 3 (codes "a") ∷ []

audio_streams-grouped_example :
    (count_named (codes "a") (audio_streams some_infos) ≤ 1)
    × (ssrcs_named (codes "a") (audio_streams some_infos) ≡ 1 ∷ 3 ∷ [])
audio_streams-grouped_example = audio_streams-grouped (codes "a") some_infos

abbrev some_groups : List SsrcGroup
some_groups =
    record { semantics = codes "FID"; group_ssrcs = 1 ∷ 3 ∷ [] }
    ∷ record { semantics = codes "FID"; group_ssrcs = [] }
    ∷ record { semantics = codes "FID"; group_ssrcs = 2 ∷ [] }
    ∷ []

video_streams-copies_example :
    video_streams some_infos some_groups
    ≡ copies [] some_groups (create_track_from_ssrc_info some_infos [])
video_streams-copies_example = video_streams-copies some_infos some_groups

-- A text library that cuts at the separators.
abbrev cut_at : ℕ → List ℕ → List ℕ → List (List ℕ)
cut_at c [] [] = []
cut_at c (y ∷ ys) [] = (y ∷ ys) ∷ []
cut_at c word (x ∷ xs) =
    let next = cut_at c [] xs in
    let longer = cut_at c (word ++ x ∷ []) xs in if x == c then word ∷ next else longer

abbrev plain_text : TextLibrary
plain_text = record {
  tokenize = λ text c. cut_at c [] text;
  tokenize_first = λ text c. none;
  from_string = λ text. none;
  has_fingerprint = λ alg text. true;
  to_lower = λ text. text;
}

-- An answer with a group, in lines that end in a line feed.
abbrev an_answer : List ℕ
an_answer = codes "v=0" ++ 10 ∷ codes "a=group:BUNDLE audio" ++ 10 ∷ []

abbrev a_desc : RemoteDesc
a_desc = record {
  desc_contents = [];
  desc_groups = [];
  audio_content = [];
  video_content = [];
  transport_infos = new_td ∷ new_td ∷ [];
}

is_taken : set_remote_sdp plain plain_text an_answer ≡ parsed a_desc
unfolding set_remote_sdp
is_taken = refl

set_remote_sdp_ungrouped_example : ◌≡◌ {A = List (List (List ℕ))} a_desc.desc_groups []
unfolding has_text
set_remote_sdp_ungrouped_example =
    set_remote_sdp_ungrouped plain plain_text an_answer a_desc (refl, (refl, tt)) is_taken

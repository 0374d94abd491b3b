-- ===== src/Pc/RemoteSdp.antt =====
-- pc/peer_connection.cpp and pc/stream_params.cpp: the answer that a browser sends is taken apart line
-- by line into transport descriptions and media tracks.
use web_rtcserver.Prelude.{
  ℕ, Bool, true, false, List, [], ◌∷◌, ◌++◌, length, take, drop, ltb, bytes_eq, is_empty,
  if◌then◌else◌, codes, ◌-◌,
}
use web_rtcserver.Rtc.{RtcBase}
use web_rtcserver.Pc.SdpLines.{
  ◌>>◌, TextLibrary, SsrcInfo, SsrcGroup, StreamParams, TransportDescription, Parsed, parsed,
  refused, new_td, ◌>>=◌, guard, has_text, substr, first_of, video_streams, audio_streams,
  parse_transport_info, parse_ssrc_info, parse_ssrc_group_info,
}

-- What the loop of `set_remote_sdp` has read: the media type of the last m= line, the contents and
-- the groups of the remote description, and for audio and video what was parsed.
pub record SdpState : Type 0 where
  pub media_type : List ℕ
  pub contents : List (List ℕ)
  pub bundles : List (List (List ℕ))
  pub audio_td : TransportDescription
  pub video_td : TransportDescription
  pub audio_ssrc_info : List SsrcInfo
  pub video_ssrc_info : List SsrcInfo
  pub video_ssrc_groups : List SsrcGroup

unfoldable pub new_sdp : SdpState
new_sdp = record {
  media_type = [];
  contents = [];
  bundles = [];
  audio_td = new_td;
  video_td = new_td;
  audio_ssrc_info = [];
  video_ssrc_info = [];
  video_ssrc_groups = [];
}

-- `ContentGroup::add_content_name`, for each name.
unfoldable pub has_name : List ℕ → List (List ℕ) → Bool
has_name name [] = false
has_name name (n ∷ names) = if bytes_eq n name then true else has_name name names

unfoldable pub add_content_names : List (List ℕ) → List (List ℕ) → List (List ℕ)
unfolding has_name
add_content_names [] names = names
add_content_names (n ∷ rest) names =
    let added = if has_name n names then names else names ++ n ∷ [] in add_content_names rest added

-- A line with "m=group:BUNDLE".
unfoldable pub add_bundle : List (List ℕ) → SdpState → SdpState
unfolding add_content_names
add_bundle items s =
    if ltb 1 (length items)
    then record s { bundles = s.bundles ++ add_content_names (drop 1 items) [] ∷ [] }
    else s

unfoldable pub enter_media : List ℕ → SdpState → SdpState
enter_media type s =
    if bytes_eq type (codes "audio")
    then record s {
      media_type = type;
      contents = s.contents ++ type ∷ [];
      audio_td = record s.audio_td { mid = type };
    }
    else if bytes_eq type (codes "video")
    then record s {
      media_type = type;
      contents = s.contents ++ type ∷ [];
      video_td = record s.video_td { mid = type };
    }
    else record s { media_type = type }

-- The remote description: its contents and groups, the streams of the audio and the video content,
-- and the two transport descriptions.
pub record RemoteDesc : Type 0 where
  pub desc_contents : List (List ℕ)
  pub desc_groups : List (List (List ℕ))
  pub audio_content : List StreamParams
  pub video_content : List StreamParams
  pub transport_infos : List TransportDescription

unfoldable pub make_desc : SdpState → RemoteDesc
unfolding audio_streams video_streams
make_desc s = record {
  desc_contents = s.contents;
  desc_groups = s.bundles;
  audio_content = audio_streams s.audio_ssrc_info;
  video_content = video_streams s.video_ssrc_info s.video_ssrc_groups;
  transport_infos = s.audio_td ∷ s.video_td ∷ [];
}

module _ (r : RtcBase) (lib : TextLibrary) where
  open r use {split}
  open lib use {tokenize, tokenize_first, from_string, has_fingerprint, to_lower}

  -- Another line with "m=".
  unfoldable pub parse_media : List (List ℕ) → SdpState → Parsed SdpState
  unfolding substr enter_media
  parse_media items s = do
    guard (ltb 2 (length items))
    type ← substr 2 (first_of items)
    parsed (enter_media type s)

  unfoldable pub parse_group_line : List ℕ → SdpState → Parsed SdpState
  unfolding has_text add_bundle parse_media
  parse_group_line line s =
      if has_text (codes "m=group:BUNDLE") line
      then parsed (add_bundle (split line b' ') s)
      else if has_text (codes "m=") line
      then parse_media (split line b' ') s
      else parsed s

  unfoldable pub parse_audio_line : List ℕ → SdpState → Parsed SdpState
  unfolding parse_transport_info parse_ssrc_info
  parse_audio_line line s = do
    td ← parse_transport_info r lib s.audio_td line
    infos ← parse_ssrc_info r lib s.audio_ssrc_info line
    parsed (record s { audio_td = td; audio_ssrc_info = infos })

  unfoldable pub parse_video_line : List ℕ → SdpState → Parsed SdpState
  unfolding parse_transport_info parse_ssrc_info parse_ssrc_group_info
  parse_video_line line s = do
    td ← parse_transport_info r lib s.video_td line
    groups ← parse_ssrc_group_info r lib s.video_ssrc_groups line
    infos ← parse_ssrc_info r lib s.video_ssrc_info line
    parsed (record s { video_td = td; video_ssrc_groups = groups; video_ssrc_info = infos })

  unfoldable pub parse_media_line : List ℕ → SdpState → Parsed SdpState
  unfolding parse_audio_line parse_video_line
  parse_media_line line s =
      if bytes_eq s.media_type (codes "audio")
      then parse_audio_line line s
      else if bytes_eq s.media_type (codes "video")
      then parse_video_line line s
      else parsed s

  -- The loop; with "\r\n" in the text, each line loses its last byte.
  unfoldable pub parse_lines : Bool → List (List ℕ) → SdpState → Parsed SdpState
  unfolding parse_group_line parse_media_line
  parse_lines is_rn [] s = parsed s
  parse_lines is_rn (field ∷ fields) s =
      let line = if is_rn then take (length field - 1) field else field in
      (parse_group_line line s >>= parse_media_line line) >>= parse_lines is_rn fields

  unfoldable pub set_remote_sdp : List ℕ → Parsed RemoteDesc
  unfolding parse_lines make_desc new_sdp has_text
  set_remote_sdp sdp =
      let fields = tokenize sdp 10 in
      if is_empty fields
      then refused
      else parse_lines (has_text (13 ∷ 10 ∷ []) sdp) fields new_sdp >>= λ s. parsed (make_desc s)

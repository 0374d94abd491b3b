-- ===== src/Pc/SdpLines.antt =====
-- pc/peer_connection.cpp and pc/stream_params.cpp: the lines of an answer, and the media tracks that its
-- ssrcs become.
use web_rtcserver.Prelude.{
  ℕ, Bool, true, false, not, ◌||◌, List, [], ◌∷◌, ◌++◌, Option, none, some, length, drop, ltb, leb,
  ◌==◌, bytes_eq, is_empty, if◌then◌else◌, codes,
}
use web_rtcserver.Rtc.{RtcBase}

pub record SsrcInfo : Type 0 where
  pub ssrc_id : ℕ
  pub info_cname : List ℕ
  pub info_stream_id : List ℕ
  pub track_id : List ℕ

pub record SsrcGroup : Type 0 where
  pub semantics : List ℕ
  pub group_ssrcs : List ℕ

pub record StreamParams : Type 0 where
  pub id : List ℕ
  pub ssrcs : List ℕ
  pub ssrc_groups : List SsrcGroup
  pub cname : List ℕ
  pub stream_id : List ℕ

-- The fingerprint is its algorithm and text; the role, which an answer leaves unset, is left out.
pub record TransportDescription : Type 0 where
  pub mid : List ℕ
  pub ice_ufrag : List ℕ
  pub ice_pwd : List ℕ
  pub identity_fingerprint : Option (List ℕ × List ℕ)

abbrev pub new_td : TransportDescription
new_td = record { mid = []; ice_ufrag = []; ice_pwd = []; identity_fingerprint = none }

-- The result of a parser: a value, -1, or the exception of `substr` beyond the end.
pub data Parsed (A : Type 0) : Type 0 where
  parsed : A → Parsed A
  refused throws : Parsed A

infixl 5 ◌>>=◌ ◌>>◌
abbrev pub ◌>>=◌ : {A B : Type 0} → Parsed A → (A → Parsed B) → Parsed B
parsed a >>= f = f a
refused >>= f = refused
throws >>= f = throws

abbrev pub ◌>>◌ : {B : Type 0} → Parsed (Unit {0}) → Parsed B → Parsed B
m >> k = m >>= λ _. k

abbrev pub of_option : {A : Type 0} → Option A → Parsed A
of_option none = refused
of_option (some a) = parsed a

abbrev pub guard : Bool → Parsed (Unit {0})
guard true = parsed tt
guard false = refused

-- `find(text) != npos`.
abbrev pub starts_with : List ℕ → List ℕ → Bool
starts_with [] xs = true
starts_with (y ∷ ys) [] = false
starts_with (y ∷ ys) (x ∷ xs) = if x == y then starts_with ys xs else false

unfoldable pub has_text : List ℕ → List ℕ → Bool
has_text text [] = is_empty text
has_text text (x ∷ xs) = starts_with text (x ∷ xs) || has_text text xs

-- `substr(n)`.
unfoldable pub substr : ℕ → List ℕ → Parsed (List ℕ)
substr n xs = if leb n (length xs) then parsed (drop n xs) else throws

-- What the parsers use of string_encode.h, string_to_number.h and ssl_fingerprint.h: `tokenize_first`
-- and `from_string` are `none` where they fail; `has_fingerprint` says whether a fingerprint can be
-- made; `to_lower` is that of the C library.
pub record TextLibrary : Type 0 where
  pub tokenize : List ℕ → ℕ → List (List ℕ)
  pub tokenize_first : List ℕ → ℕ → Option (List ℕ × List ℕ)
  pub from_string : List ℕ → Option ℕ
  pub has_fingerprint : List ℕ → List ℕ → Bool
  pub to_lower : List ℕ → List ℕ

abbrev pub first_of : List (List ℕ) → List ℕ
first_of [] = []
first_of (x ∷ xs) = x

abbrev second_of : List (List ℕ) → List ℕ
second_of [] = []
second_of (x ∷ []) = []
second_of (x ∷ y ∷ rest) = y

-- `ssrc_info`, with the entry of an id, which is made if there is none, changed by `f`.
unfoldable pub update_info : ℕ → (SsrcInfo → SsrcInfo) → List SsrcInfo → List SsrcInfo
update_info ssrc f [] =
    f (record { ssrc_id = ssrc; info_cname = []; info_stream_id = []; track_id = [] }) ∷ []
update_info ssrc f (info ∷ infos) =
    if info.ssrc_id == ssrc then f info ∷ infos else info ∷ update_info ssrc f infos

unfoldable pub has_ssrc : ℕ → List ℕ → Bool
has_ssrc ssrc [] = false
has_ssrc ssrc (s ∷ ssrcs) = if s == ssrc then true else has_ssrc ssrc ssrcs

-- One ssrc goes to the track of its id, which is made if there is none.
unfoldable pub add_to_track : SsrcInfo → List StreamParams → List StreamParams
add_to_track info [] =
    record {
      id = info.track_id;
      ssrcs = info.ssrc_id ∷ [];
      ssrc_groups = [];
      cname = info.info_cname;
      stream_id = info.info_stream_id;
    }
    ∷ []
add_to_track info (track ∷ tracks) =
    if bytes_eq track.id info.track_id
    then record track {
      cname = info.info_cname;
      stream_id = info.info_stream_id;
      ssrcs = track.ssrcs ++ info.ssrc_id ∷ [];
    }
      ∷ tracks
    else track ∷ add_to_track info tracks

unfoldable pub create_track_from_ssrc_info : List SsrcInfo → List StreamParams → List StreamParams
unfolding add_to_track
create_track_from_ssrc_info [] tracks = tracks
create_track_from_ssrc_info (info ∷ infos) tracks =
    create_track_from_ssrc_info infos (add_to_track info tracks)

-- The loop over the tracks for one group.
unfoldable pub add_group : SsrcGroup → ℕ → List StreamParams → List StreamParams
unfolding has_ssrc
add_group group ssrc [] = []
add_group group ssrc (track ∷ tracks) =
    let rest = add_group group ssrc tracks in
    (if has_ssrc ssrc track.ssrcs
      then record track { ssrc_groups = track.ssrc_groups ++ group ∷ [] }
      else track)
    ∷ rest

-- The loop over the groups, with the tracks and the streams of the video content so far.
unfoldable pub add_video_streams :
    List SsrcGroup → List StreamParams → List StreamParams → List StreamParams
unfolding add_group
add_video_streams [] tracks streams = streams
add_video_streams (group ∷ groups) tracks streams = elim group.group_ssrcs [
  | [] ↦ add_video_streams groups tracks streams
  | (ssrc ∷ rest) ↦
      let grouped = add_group group ssrc tracks in
      add_video_streams groups grouped (streams ++ grouped)
]

-- The streams of the video content at the end of `set_remote_sdp`.
unfoldable pub video_streams : List SsrcInfo → List SsrcGroup → List StreamParams
unfolding create_track_from_ssrc_info add_video_streams
video_streams infos groups =
    if is_empty infos
    then []
    else add_video_streams groups (create_track_from_ssrc_info infos []) []

unfoldable pub audio_streams : List SsrcInfo → List StreamParams
unfolding create_track_from_ssrc_info
audio_streams infos = create_track_from_ssrc_info infos []

module _ (r : RtcBase) (lib : TextLibrary) where
  open r use {split}
  open lib use {tokenize, tokenize_first, from_string, has_fingerprint, to_lower}

  unfoldable pub get_sdp_attribute : List ℕ → List ℕ
  get_sdp_attribute line =
      let fields = tokenize line b':' in if ltb (length fields) 2 then [] else second_of fields

  unfoldable pub parse_fingerprint :
      TransportDescription → List (List ℕ) → Parsed TransportDescription
  unfolding substr
  parse_fingerprint td items = do
    guard (length items == 2)
    alg ← substr 14 (first_of items)
    guard (has_fingerprint (to_lower alg) (second_of items))
    parsed (record td { identity_fingerprint = some (to_lower alg, second_of items) })

  unfoldable pub parse_transport_info : TransportDescription → List ℕ → Parsed TransportDescription
  unfolding has_text get_sdp_attribute parse_fingerprint
  parse_transport_info td line =
      if has_text (codes "a=ice-ufrag") line
      then parsed (record td { ice_ufrag = get_sdp_attribute line })
      else if has_text (codes "a=ice-pwd") line
      then parsed (record td { ice_pwd = get_sdp_attribute line })
      else if has_text (codes "a=fingerprint") line
      then parse_fingerprint td (tokenize line b' ')
      else parsed td

  -- `msid`: the entry is there by now, so a wrong number of fields leaves it.
  unfoldable pub set_attribute : ℕ → List ℕ → List ℕ → List SsrcInfo → Parsed (List SsrcInfo)
  unfolding update_info
  set_attribute ssrc attribute value infos =
      if bytes_eq attribute (codes "cname")
      then parsed (update_info ssrc (λ i. record i { info_cname = value }) infos)
      else if bytes_eq attribute (codes "msid")
      then elim (split value b' ') [
        | [] ↦ refused
        | (a ∷ []) ↦ parsed (update_info ssrc (λ i. record i { info_stream_id = a }) infos)
        | (a ∷ b ∷ []) ↦
            parsed (update_info ssrc (λ i. record i { info_stream_id = a; track_id = b }) infos)
        | (a ∷ b ∷ c ∷ rest) ↦ refused
      ]
      else parsed (update_info ssrc (λ i. i) infos)

  unfoldable pub parse_ssrc_info : List SsrcInfo → List ℕ → Parsed (List SsrcInfo)
  unfolding has_text substr set_attribute
  parse_ssrc_info infos line = if not (has_text (codes "a=ssrc:") line) then parsed infos else do
    tail ← substr 2 line
    fields ← of_option (tokenize_first tail b' ')
    ssrc_text ← substr 5 fields.0
    ssrc ← of_option (from_string ssrc_text)
    attribute ← of_option (tokenize_first fields.1 b':')
    set_attribute ssrc attribute.0 attribute.1 infos

  unfoldable pub parse_ssrcs : List (List ℕ) → Parsed (List ℕ)
  parse_ssrcs [] = parsed []
  parse_ssrcs (text ∷ texts) = do
    ssrc ← of_option (from_string text)
    ssrcs ← parse_ssrcs texts
    parsed (ssrc ∷ ssrcs)

  unfoldable pub parse_ssrc_group_info : List SsrcGroup → List ℕ → Parsed (List SsrcGroup)
  unfolding has_text substr get_sdp_attribute parse_ssrcs
  parse_ssrc_group_info groups line =
      if not (has_text (codes "a=ssrc-group:") line) then parsed groups else do
        tail ← substr 2 line
        guard (leb 2 (length (split tail b' ')))
        guard (not (is_empty (get_sdp_attribute (first_of (split tail b' ')))))
        ssrcs ← parse_ssrcs (drop 1 (split tail b' '))
        parsed (
            groups
            ++ record {
              semantics = get_sdp_attribute (first_of (split tail b' '));
              group_ssrcs = ssrcs;
            }
              ∷ [])

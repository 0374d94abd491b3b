-- ===== src/Pc/Bundles.antt =====
-- Of pc/peer_connection.cpp: `set_remote_sdp` looks for the groups of an answer in lines with
-- "m=group:BUNDLE", while SDP, and the offer of this server, have "a=group:BUNDLE".
use web_rtcserver.Prelude.{
  ℕ, ◌-◌, ◌≡◌, refl, Bool, false, List, [], ◌∷◌, arith, if_intro, All, length, take, bytes_eq,
  is_empty, if◌then◌else◌, codes, ltb,
}
use mathlib.Core.Path.{subst}
use web_rtcserver.Rtc.{RtcBase}
use web_rtcserver.Pc.SdpLines.{
  Parsed, parsed, refused, throws, guard, ◌>>=◌, has_text, substr, TextLibrary, first_of,
  TransportDescription, SsrcInfo, SsrcGroup, parse_transport_info, parse_ssrc_info,
  parse_ssrc_group_info,
}
use web_rtcserver.Pc.RemoteSdp.{
  SdpState, new_sdp, enter_media, parse_media, parse_group_line, parse_audio_line, parse_video_line,
  parse_media_line, parse_lines, RemoteDesc, make_desc, set_remote_sdp,
}

-- Of the value that a parser gives, if any.
abbrev Each : {A : Type 0} → (A → Type 0) → Parsed A → Type 0
Each P (parsed a) = P a
Each P refused = Unit
Each P throws = Unit

Each-bind :
    {A B : Type 0} (P : A → Type 0) (Q : B → Type 0) (m : Parsed A) (f : A → Parsed B)
    → Each P m
    → ((a : A) → P a → Each Q (f a))
    → Each Q (m >>= f)
Each-bind P Q (parsed a) f h k = k a h
Each-bind P Q refused f h k = tt
Each-bind P Q throws f h k = tt

Each-any :
    {A B : Type 0} (Q : B → Type 0) (m : Parsed A) (f : A → Parsed B)
    → ((a : A) → Each Q (f a))
    → Each Q (m >>= f)
Each-any Q (parsed a) f k = k a
Each-any Q refused f k = tt
Each-any Q throws f k = tt

module _ (r : RtcBase) (lib : TextLibrary) where
  -- The lines as the loop sees them.
  abbrev pub cut : Bool → List ℕ → List ℕ
  cut is_rn field = if is_rn then take (length field - 1) field else field

  abbrev Ungrouped : SdpState → Type 0
  Ungrouped s = s.bundles ≡ []

  enter_media-Ungrouped :
      (type : List ℕ) (s : SdpState) → Ungrouped s → Ungrouped (enter_media type s)
  unfolding enter_media
  enter_media-Ungrouped type s h =
      if_intro Ungrouped (bytes_eq type (codes "audio")) (λ t. h)
        (λ t. if_intro Ungrouped (bytes_eq type (codes "video")) (λ u. h) (λ u. h))

  parse_group_line-Ungrouped :
      (line : List ℕ) (s : SdpState)
      → has_text (codes "m=group:BUNDLE") line ≡ false
      → Ungrouped s
      → Each Ungrouped (parse_group_line r lib line s)
  unfolding parse_group_line parse_media
  parse_group_line-Ungrouped line s no_group h =
      if_intro (Each Ungrouped) (has_text (codes "m=group:BUNDLE") line)
        (λ t. absurd (ground (arith, t, no_group)))
        (λ t.
          if_intro (Each Ungrouped) (has_text (codes "m=") line)
            (λ u.
              let items = r.split line b' ' in
              let enter : List ℕ → Parsed SdpState = λ type. parsed (enter_media type s) in
              let named : Unit {0} → Parsed SdpState = λ a. substr 2 (first_of items) >>= enter in
              Each-any Ungrouped (guard (ltb 2 (length items))) named (λ a.
                Each-any Ungrouped (substr 2 (first_of items)) enter
                  (λ type. enter_media-Ungrouped type s h)))
            (λ u. h))

  parse_media_line-Ungrouped :
      (line : List ℕ) (s : SdpState) → Ungrouped s → Each Ungrouped (parse_media_line r lib line s)
  unfolding parse_media_line parse_audio_line parse_video_line
  parse_media_line-Ungrouped line s h =
      let end_audio : TransportDescription → List SsrcInfo → Parsed SdpState =
        λ td infos. parsed (record s { audio_td = td; audio_ssrc_info = infos }) in
      let audio : TransportDescription → Parsed SdpState =
        λ td. parse_ssrc_info r lib s.audio_ssrc_info line >>= end_audio td in
      let end_video : TransportDescription → List SsrcGroup → List SsrcInfo → Parsed SdpState =
        λ td groups infos.
          parsed
            (record s { video_td = td; video_ssrc_groups = groups; video_ssrc_info = infos }) in
      let infos_of : TransportDescription → List SsrcGroup → Parsed SdpState =
        λ td groups. parse_ssrc_info r lib s.video_ssrc_info line >>= end_video td groups in
      let video : TransportDescription → Parsed SdpState =
        λ td. parse_ssrc_group_info r lib s.video_ssrc_groups line >>= infos_of td in
      if_intro (Each Ungrouped) (bytes_eq s.media_type (codes "audio"))
        (λ t. Each-any Ungrouped (parse_transport_info r lib s.audio_td line) audio (λ td.
          Each-any Ungrouped (parse_ssrc_info r lib s.audio_ssrc_info line) (end_audio td)
            (λ infos. h)))
        (λ t.
          if_intro (Each Ungrouped) (bytes_eq s.media_type (codes "video"))
            (λ u. Each-any Ungrouped (parse_transport_info r lib s.video_td line) video (λ td.
              Each-any Ungrouped (parse_ssrc_group_info r lib s.video_ssrc_groups line)
                (infos_of td)
                (λ groups.
                  Each-any Ungrouped (parse_ssrc_info r lib s.video_ssrc_info line)
                    (end_video td groups) (λ infos. h))))
            (λ u. h))

  parse_lines-Ungrouped :
      (is_rn : Bool) (fields : List (List ℕ)) (s : SdpState)
      → All (λ field. has_text (codes "m=group:BUNDLE") (cut is_rn field) ≡ false) fields
      → Ungrouped s
      → Each Ungrouped (parse_lines r lib is_rn fields s)
  unfolding parse_lines
  parse_lines-Ungrouped is_rn [] s no_group h = h
  parse_lines-Ungrouped is_rn (field ∷ fields) s no_group h =
      let line = cut is_rn field in
      Each-bind Ungrouped Ungrouped (parse_group_line r lib line s >>= parse_media_line r lib line)
        (parse_lines r lib is_rn fields)
        (Each-bind Ungrouped Ungrouped (parse_group_line r lib line s) (parse_media_line r lib line)
          (parse_group_line-Ungrouped line s no_group.0 h) (parse_media_line-Ungrouped line))
        (λ after. parse_lines-Ungrouped is_rn fields after no_group.1)

  -- An answer that is taken, none of whose lines has the text "m=group:BUNDLE", has no group, so
  -- that no medium counts as bundled, whatever its "a=group:BUNDLE" lines say.
  pub set_remote_sdp_ungrouped :
      (sdp : List ℕ) (d : RemoteDesc)
      → All
          (λ field.
            has_text (codes "m=group:BUNDLE") (cut (has_text (13 ∷ 10 ∷ []) sdp) field) ≡ false)
          (lib.tokenize sdp 10)
      → set_remote_sdp r lib sdp ≡ parsed d
      → d.desc_groups ≡ []
  unfolding set_remote_sdp new_sdp make_desc
  set_remote_sdp_ungrouped sdp d no_group e =
      subst (Each {A = RemoteDesc} (λ desc. desc.desc_groups ≡ [])) e (
        if_intro (Each {A = RemoteDesc} (λ desc. desc.desc_groups ≡ []))
          (is_empty (lib.tokenize sdp 10)) (λ t. tt)
          (λ t.
            Each-bind Ungrouped (λ desc. desc.desc_groups ≡ [])
              (parse_lines r lib (has_text (13 ∷ 10 ∷ []) sdp) (lib.tokenize sdp 10) (new_sdp))
              (λ s. parsed (make_desc s))
              (parse_lines-Ungrouped (has_text (13 ∷ 10 ∷ []) sdp) (lib.tokenize sdp 10) (new_sdp)
                no_group refl)
              (λ s h. h)))

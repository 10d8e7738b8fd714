-- ===== src/Hdlc/Frames/AcknowledgmentRoundTrip.antt =====
-- UnNumberedAcknowledgmentFrame (dlms_cosem/hdlc/frames.py), written and read: with a payload it
-- has a header check sequence, without one it has none.
use dlms_cosem.Prelude.{
  ℕ, ◌+◌, ◌*◌, ◌<◌, ◌≡◌, ap, refl, arith, true, false, some, List, [], ◌∷◌, ◌++◌, length, take,
  drop, All-append, bytes_eq_refl, ok, ◌>>=◌, IsByte, IsBytes,
}
use dlms_cosem.Hdlc.Fields.Ua
use dlms_cosem.Hdlc.Address.Defs.{HdlcAddress, address_length}
use dlms_cosem.Hdlc.Address.Wire.{IsReadable, wire, client-to_bytes, server-to_bytes}
use dlms_cosem.Hdlc.Frames.Defs.{
  HdlcFrame, unnumbered_acknowledgment, frame_length, control_bytes, information, hcs, fcs,
  to_bytes,
}
use dlms_cosem.Hdlc.Frames.Parse.{acknowledgment_from_bytes, hcs_agrees}
use dlms_cosem.Hdlc.Frames.Shape.{framed, frame_check_of-framed}
use dlms_cosem.Hdlc.Frames.Bytes.{
  header_of, to_client, header_content_lem, to_bytes_lem, header-IsBytes,
}
use dlms_cosem.Hdlc.Frames.Places.{
  content, slice_at, behind_to_check, open_content, content_addresses,
}
use dlms_cosem.Hdlc.Frames.InformationRoundTrip.{check_fcs_lem}
use dlms_cosem.Crc.Total.{calculate_for-two_bytes}

-- The bytes that the two check sequences add.
abbrev checks_length : List ℕ → ℕ
checks_length [] = 6
checks_length (b ∷ bs) = 8

module _ (l : ℕ) {a : HdlcAddress} (r : IsReadable a) (h : l < 128) (payload : List ℕ) where
  abbrev pub ua_frame : HdlcFrame
  ua_frame = to_client l r h unnumbered_acknowledgment (some payload) false true 0 0

  abbrev pub ua_length : ℕ
  ua_length = checks_length payload + length (wire r) + length payload

ua_frame_length :
    (l : ℕ) {a : HdlcAddress} (r : IsReadable a) (h : l < 128) (payload : List ℕ)
    → frame_length (ua_frame l r h payload) ≡ ok (ua_length l r h payload)
unfolding frame_length address_length
ua_frame_length l r h [] = rw (client-to_bytes l h) (rw (server-to_bytes r) (ap ok (omega arith)))
ua_frame_length l r h (b ∷ bs) =
    rw (client-to_bytes l h) (rw (server-to_bytes r) (ap ok (omega arith)))

module _ (l : ℕ) {a : HdlcAddress} (r : IsReadable a) (h : l < 128) (payload : List ℕ) where
  -- The parser on the bytes, with what stands where the header check sequence would.
  ua_parse :
      (behind check : List ℕ) (c1 c2 : ℕ)
      → ua_length l r h payload < 2048
      → ua_length l r h payload ≡ length behind + 6 + length (wire r)
      → (let bytes =
            framed (content l r h (ua_length l r h payload) false 0x73 behind c1 c2) c1 c2 in
          (payload ≡ drop 2 behind)
          → hcs (ua_frame l r h payload) ≡ ok check
          → hcs_agrees (take 2 (behind ++ (c1 ∷ c2 ∷ 0x7e ∷ []))) check ≡ true
          → fcs (ua_frame l r h payload) ≡ ok (c1 ∷ c2 ∷ [])
          → acknowledgment_from_bytes bytes ≡ ok (ua_frame l r h payload))
  unfolding acknowledgment_from_bytes
  ua_parse behind check c1 c2 hn en ep eh agrees ec =
      let n : ℕ = ua_length l r h payload in
      let pos : ℕ = 4 + length (wire r) in
      rw (open_content l r h n false 0x73 behind c1 c2 hn en) (
        rw (content_addresses l r h n false 0x73 behind c1 c2) (
          rw (behind_to_check l r h n false 0x73 behind c1 c2 3 (pos + 1 + 2) (omega arith)) (
            rw (← ep) (
              rw eh (
                rw
                  (slice_at l r h n false 0x73 behind c1 c2 1 2 (pos + 1) (pos + 1 + 2)
                    (omega arith) (omega arith))
                  (rw agrees (
                    check_fcs_lem _ (ua_frame l r h payload) c1 c2
                      (frame_check_of-framed (content l r h n false 0x73 behind c1 c2) c1 c2)
                      ec)))))))

  ua_control : control_bytes (ua_frame l r h payload) ≡ ok (0x73 ∷ [])
  unfolding control_bytes Ua.to_bytes
  ua_control = refl

  abbrev ua_header : List ℕ
  ua_header = header_of (ua_length l r h payload) false ((l * 2 + 1) ∷ wire r) 0x73

  -- The bytes of the frame, with its header check sequence, are read back.
  ua_checked :
      (check : List ℕ)
      → ua_length l r h payload < 2048
      → ua_length l r h payload ≡ length (check ++ payload) + 6 + length (wire r)
      → payload ≡ drop 2 (check ++ payload)
      → hcs (ua_frame l r h payload) ≡ ok check
      → IsBytes check
      → IsBytes payload
      → ((c1 c2 : ℕ)
          → hcs_agrees (take 2 ((check ++ payload) ++ (c1 ∷ c2 ∷ 0x7e ∷ []))) check ≡ true)
      → (to_bytes (ua_frame l r h payload) >>= acknowledgment_from_bytes)
        ≡ ok (ua_frame l r h payload)
  ua_checked check hn en ep eh hc hp agrees =
      let n : ℕ = ua_length l r h payload in
      let eheader =
        header_content_lem l r h unnumbered_acknowledgment (some payload) false true 0 0 n 0x73
          (ua_frame_length l r h payload) hn ua_control in
      let (c1, c2, e, ef) =
        to_bytes_lem l r h unnumbered_acknowledgment (some payload) false true 0 0 ua_header check
          eheader eh
          (unfold information in
            All-append IsByte ua_header (check ++ payload)
              (header-IsBytes l r h n false 0x73 hn (omega arith))
              (All-append IsByte check payload hc hp)) in
      rw e (
        unfold information in ua_parse (check ++ payload) check c1 c2 hn en ep eh (agrees c1 c2) ef)

-- An UnNumberedAcknowledgmentFrame from a server, whose address can be read back, to a client with
-- an address under 128 is parsed from its bytes as the same frame, where the payload, empty or not,
-- is of bytes and the length is under 2048.
pub acknowledgment_from_bytes-to_bytes :
    (l : ℕ) {a : HdlcAddress} (r : IsReadable a) (h : l < 128) (payload : List ℕ)
    → IsBytes payload
    → ua_length l r h payload < 2048
    → (to_bytes (ua_frame l r h payload) >>= acknowledgment_from_bytes)
      ≡ ok (ua_frame l r h payload)
acknowledgment_from_bytes-to_bytes l r h [] hp hn =
    ua_checked l r h [] [] hn (omega arith) refl (unfold hcs in refl) tt tt
      (λ c1 c2. unfold hcs_agrees in refl)
acknowledgment_from_bytes-to_bytes l r h (b ∷ bs) hp hn =
    let payload : List ℕ = b ∷ bs in
    let eheader =
      header_content_lem l r h unnumbered_acknowledgment (some payload) false true 0 0
        (ua_length l r h payload) 0x73 (ua_frame_length l r h payload) hn
        (ua_control l r h payload) in
    let (h1, h2, eh, b1, b2) =
      calculate_for-two_bytes (ua_header l r h payload) false
        (header-IsBytes l r h (ua_length l r h payload) false 0x73 hn (omega arith)) in
    ua_checked l r h payload (h1 ∷ h2 ∷ []) hn (omega arith) refl (unfold hcs in rw eheader eh)
      (b1, (b2, tt)) hp (λ c1 c2. unfold hcs_agrees in bytes_eq_refl (h1 ∷ h2 ∷ []))

-- ===== src/Hdlc/Frames/UnnumberedRoundTrip.antt =====
-- UnnumberedInformationFrame (dlms_cosem/hdlc/frames.py), written and read.
use dlms_cosem.Prelude.{
  ℕ, ◌+◌, ◌*◌, ◌<◌, ◌≡◌, ap, refl, arith, Bool, true, false, some, List, [], ◌∷◌, length,
  All-append, ok, ◌>>=◌, IsByte, IsBytes,
}
use dlms_cosem.Hdlc.Address.Defs.{HdlcAddress, address_length}
use dlms_cosem.Hdlc.Address.Wire.{IsReadable, wire, client-to_bytes, server-to_bytes}
use dlms_cosem.Hdlc.Frames.Defs.{
  HdlcFrame, unnumbered_information, frame_length, control_bytes, information, hcs, fcs, to_bytes,
}
use dlms_cosem.Hdlc.Frames.Parse.{unnumbered_from_bytes}
use dlms_cosem.Hdlc.Frames.Shape.{framed, frame_check_of-framed}
use dlms_cosem.Hdlc.Frames.InformationRoundTrip.{check_both_lem}
use dlms_cosem.Hdlc.Frames.Bytes.{
  header_of, to_client, header_content_lem, to_bytes_lem, header-IsBytes,
}
use dlms_cosem.Hdlc.Frames.Places.{
  content, slice_at, behind_to_check, open_content, content_addresses,
}
use dlms_cosem.Crc.Total.{calculate_for-two_bytes}
use dlms_cosem.Hdlc.Fields.UnnumberedInformation
use dlms_cosem.Hdlc.Fields.UnnumberedInformation.{UnnumberedInformationControlField}

-- The control byte, in both directions.
abbrev pub unnumbered_byte : Bool → ℕ
unnumbered_byte true = 0x13
unnumbered_byte false = 0x03

unnumbered-to_bytes :
    (final : Bool)
    → UnnumberedInformation.to_bytes (record { final = final }) ≡ ok (unnumbered_byte final ∷ [])
unfolding UnnumberedInformation.to_bytes
unnumbered-to_bytes true = refl
unnumbered-to_bytes false = refl

unnumbered-from_bytes :
    (final : Bool)
    → UnnumberedInformation.from_bytes (unnumbered_byte final ∷ []) ≡ ok (record { final = final })
unfolding UnnumberedInformation.from_bytes
unnumbered-from_bytes true = refl
unnumbered-from_bytes false = refl

unnumbered_byte-IsByte : (final : Bool) → unnumbered_byte final < 256
unnumbered_byte-IsByte true = omega arith
unnumbered_byte-IsByte false = omega arith

module _ (l : ℕ) {a : HdlcAddress} (r : IsReadable a) (h : l < 128) where
  module _ (payload : List ℕ) (segmented final : Bool) where
    abbrev u_frame : HdlcFrame
    u_frame = to_client l r h unnumbered_information (some payload) segmented final 0 0

    abbrev u_length : ℕ
    u_length = 8 + length (wire r) + length payload

    u_frame_length : frame_length u_frame ≡ ok u_length
    unfolding frame_length address_length
    u_frame_length = rw (client-to_bytes l h) (rw (server-to_bytes r) (ap ok (omega arith)))

    u_control : control_bytes u_frame ≡ ok (unnumbered_byte final ∷ [])
    unfolding control_bytes
    u_control = unnumbered-to_bytes final

    -- What `from_bytes` makes of the bytes, once the two check sequences are known.
    u_parse :
        (h1 h2 c1 c2 : ℕ)
        → u_length < 2048
        → hcs u_frame ≡ ok (h1 ∷ h2 ∷ [])
        → fcs u_frame ≡ ok (c1 ∷ c2 ∷ [])
        → unnumbered_from_bytes (
            framed
              (content l r h u_length segmented (unnumbered_byte final) (h1 ∷ h2 ∷ payload) c1 c2)
              c1
              c2)
          ≡ ok u_frame
    unfolding unnumbered_from_bytes
    u_parse h1 h2 c1 c2 hn eh ec =
        let control : ℕ = unnumbered_byte final in
        let behind : List ℕ = h1 ∷ h2 ∷ payload in
        let pos : ℕ = 4 + length (wire r) in
        rw (open_content l r h u_length segmented control behind c1 c2 hn (omega arith)) (
          rw (content_addresses l r h u_length segmented control behind c1 c2) (
            rw
              (slice_at l r h u_length segmented control behind c1 c2 0 1 pos (pos + 1)
                (omega arith) (omega arith))
              (rw (unnumbered-from_bytes final) (
                rw
                  (behind_to_check l r h u_length segmented control behind c1 c2 3 (pos + 1 + 2)
                    (omega arith))
                  (check_both_lem _ _ u_frame h1 h2 c1 c2
                    (slice_at l r h u_length segmented control behind c1 c2 1 2 (pos + 1)
                      (pos + 1 + 2) (omega arith) (omega arith))
                    eh
                    (frame_check_of-framed (content l r h u_length segmented control behind c1 c2)
                      c1 c2)
                    ec)))))

    -- An UnnumberedInformationFrame from a server, whose address can be read back, to a client with
    -- an address under 128 is parsed from its bytes as the same frame, where the payload is of bytes
    -- and the length is under 2048.
    pub unnumbered_from_bytes-to_bytes :
        IsBytes payload
        → u_length < 2048
        → (to_bytes u_frame >>= unnumbered_from_bytes) ≡ ok u_frame
    unnumbered_from_bytes-to_bytes hp hn =
        let control : ℕ = unnumbered_byte final in
        let header = header_of u_length segmented ((l * 2 + 1) ∷ wire r) control in
        let hb : IsBytes header =
          header-IsBytes l r h u_length segmented control hn (unnumbered_byte-IsByte final) in
        let eheader =
          header_content_lem l r h unnumbered_information (some payload) segmented final 0 0
            u_length control u_frame_length hn u_control in
        let (h1, h2, eh, b1, b2) = calculate_for-two_bytes header false hb in
        let ehcs : hcs u_frame ≡ ok (h1 ∷ h2 ∷ []) = unfold hcs in rw eheader eh in
        let (c1, c2, e, ef) =
          to_bytes_lem l r h unnumbered_information (some payload) segmented final 0 0 header
            (h1 ∷ h2 ∷ []) eheader ehcs
            (unfold information in
              All-append IsByte header (h1 ∷ h2 ∷ payload) hb (b1, (b2, hp))) in
        rw e (unfold information in u_parse h1 h2 c1 c2 hn ehcs ef)

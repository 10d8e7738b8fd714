-- ===== src/Hdlc/Frames/InformationRoundTrip.antt =====
-- InformationFrame (dlms_cosem/hdlc/frames.py), written and read.
use dlms_cosem.Prelude.{
  ℕ, ◌+◌, ◌*◌, ◌≤◌, ◌<◌, ◌≡◌, ap, arith, Bool, true, false, some, List, [], ◌∷◌, leb, length, slice,
  All-append, bytes_eq_refl, ok, ◌>>=◌, IsByte, IsBytes,
}
use dlms_cosem.Hdlc.Fields.RoundTrip.{info_byte, info-to_bytes, info-round_trip, info_byte-IsByte}
use dlms_cosem.Hdlc.Fields.Information
use dlms_cosem.Hdlc.Fields.Information.{InformationControlField}
use dlms_cosem.Hdlc.Address.Defs.{HdlcAddress, address_length}
use dlms_cosem.Hdlc.Address.Wire.{IsReadable, wire, client-to_bytes, server-to_bytes}
use dlms_cosem.Hdlc.Frames.Defs.{
  HdlcFrame, information_class, frame_length, control_bytes, information, hcs, fcs, to_bytes,
  validated,
}
use dlms_cosem.Hdlc.Frames.Parse.{frame_check_of, check_both, check_fcs, information_from_bytes}
use dlms_cosem.Hdlc.Frames.Shape.{framed, frame_check_of-framed}
use dlms_cosem.Hdlc.Frames.Bytes.{
  header_of, to_client, header_content_lem, to_bytes_lem, header-IsBytes,
}
use dlms_cosem.Hdlc.Frames.Places.{
  content, slice_at, behind_to_check, open_content, content_addresses,
}
use dlms_cosem.Crc.Total.{calculate_for-two_bytes}

-- The checks of `from_bytes` pass on the bytes that carry the sequences of the frame.
pub check_fcs_lem :
    (bytes : List ℕ) (f : HdlcFrame) (c1 c2 : ℕ)
    → frame_check_of bytes ≡ c1 ∷ c2 ∷ []
    → fcs f ≡ ok (c1 ∷ c2 ∷ [])
    → check_fcs bytes f ≡ ok f
unfolding check_fcs
check_fcs_lem bytes f c1 c2 e ef = rw ef (rw e (rw (bytes_eq_refl (c1 ∷ c2 ∷ []))))

pub check_both_lem :
    (bytes : List ℕ) (i : ℕ) (f : HdlcFrame) (h1 h2 c1 c2 : ℕ)
    → slice bytes i (i + 2) ≡ h1 ∷ h2 ∷ []
    → hcs f ≡ ok (h1 ∷ h2 ∷ [])
    → frame_check_of bytes ≡ c1 ∷ c2 ∷ []
    → fcs f ≡ ok (c1 ∷ c2 ∷ [])
    → check_both bytes i f ≡ ok f
unfolding check_both check_fcs
check_both_lem bytes i f h1 h2 c1 c2 eh efh e ef =
    rw efh
      (rw eh (rw (bytes_eq_refl (h1 ∷ h2 ∷ [])) (rw ef (rw e (rw (bytes_eq_refl (c1 ∷ c2 ∷ [])))))))

module _ (l : ℕ) {a : HdlcAddress} (r : IsReadable a) (h : l < 128) where
  module _ (payload : List ℕ) (segmented final : Bool) (ssn rsn : ℕ) where
    abbrev i_frame : HdlcFrame
    i_frame = to_client l r h information_class (some payload) segmented final ssn rsn

    abbrev i_length : ℕ
    i_length = 8 + length (wire r) + length payload

    i_frame_length : frame_length i_frame ≡ ok i_length
    unfolding frame_length address_length
    i_frame_length = rw (client-to_bytes l h) (rw (server-to_bytes r) (ap ok (omega arith)))

    i_control : ssn ≤ 7 → rsn ≤ 7 → control_bytes i_frame ≡ ok (info_byte ssn rsn final ∷ [])
    unfolding control_bytes Information.make
    i_control hs hr =
        rw (let e : leb ssn 7 ≡ true = ground arith in e)
          (rw (let e : leb rsn 7 ≡ true = ground arith in e) (info-to_bytes _ hs hr))

    i_control_read :
        ssn ≤ 7
        → rsn ≤ 7
        → Information.from_bytes (info_byte ssn rsn final ∷ [])
          ≡ ok (record { send_sequence_number = ssn; receive_sequence_number = rsn; final = final })
    i_control_read hs hr =
        let field : InformationControlField = record {
          send_sequence_number = ssn;
          receive_sequence_number = rsn;
          final = final;
        } in
        rw (info-to_bytes field hs hr) at (info-round_trip field hs hr)

    i_validated : ssn ≤ 7 → rsn ≤ 7 → validated i_frame ≡ ok i_frame
    unfolding validated
    i_validated hs hr = ground arith

    -- What `from_bytes` makes of the bytes, once the two check sequences are known.
    i_parse :
        (h1 h2 c1 c2 : ℕ)
        → ssn ≤ 7
        → rsn ≤ 7
        → i_length < 2048
        → hcs i_frame ≡ ok (h1 ∷ h2 ∷ [])
        → fcs i_frame ≡ ok (c1 ∷ c2 ∷ [])
        → information_from_bytes (
            framed
              (content l r h i_length segmented (info_byte ssn rsn final) (h1 ∷ h2 ∷ payload) c1 c2)
              c1
              c2)
          ≡ ok i_frame
    unfolding information_from_bytes
    i_parse h1 h2 c1 c2 hs hr hn eh ec =
        let control : ℕ = info_byte ssn rsn final in
        let behind : List ℕ = h1 ∷ h2 ∷ payload in
        let pos : ℕ = 4 + length (wire r) in
        rw (open_content l r h i_length segmented control behind c1 c2 hn (omega arith)) (
          rw (content_addresses l r h i_length segmented control behind c1 c2) (
            rw
              (slice_at l r h i_length segmented control behind c1 c2 0 1 pos (pos + 1)
                (omega arith) (omega arith))
              (rw (i_control_read hs hr) (
                rw
                  (behind_to_check l r h i_length segmented control behind c1 c2 3 (pos + 1 + 2)
                    (omega arith))
                  (rw (i_validated hs hr) (
                    check_both_lem _ _ i_frame h1 h2 c1 c2
                      (slice_at l r h i_length segmented control behind c1 c2 1 2 (pos + 1)
                        (pos + 1 + 2) (omega arith) (omega arith))
                      eh
                      (frame_check_of-framed (content l r h i_length segmented control behind c1 c2)
                        c1 c2)
                      ec))))))

    -- An InformationFrame from a server, whose address can be read back, to a client with an address
    -- under 128 is parsed from its bytes as the same frame, where both sequence numbers are up to 7,
    -- the payload is of bytes and the length is under 2048.
    pub information_from_bytes-to_bytes :
        ssn ≤ 7
        → rsn ≤ 7
        → IsBytes payload
        → i_length < 2048
        → (to_bytes i_frame >>= information_from_bytes) ≡ ok i_frame
    information_from_bytes-to_bytes hs hr hp hn =
        let control : ℕ = info_byte ssn rsn final in
        let header = header_of i_length segmented ((l * 2 + 1) ∷ wire r) control in
        let hb : IsBytes header =
          header-IsBytes l r h i_length segmented control hn
            (info_byte-IsByte ssn rsn final hs hr) in
        let eheader =
          header_content_lem l r h information_class (some payload) segmented final ssn rsn i_length
            control i_frame_length hn (i_control hs hr) in
        let (h1, h2, eh, b1, b2) = calculate_for-two_bytes header false hb in
        let ehcs : hcs i_frame ≡ ok (h1 ∷ h2 ∷ []) = unfold hcs in rw eheader eh in
        let (c1, c2, e, ef) =
          to_bytes_lem l r h information_class (some payload) segmented final ssn rsn header
            (h1 ∷ h2 ∷ []) eheader ehcs
            (unfold information in
              All-append IsByte header (h1 ∷ h2 ∷ payload) hb (b1, (b2, hp))) in
        rw e (unfold information in i_parse h1 h2 c1 c2 hs hr hn ehcs ef)

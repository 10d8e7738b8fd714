-- ===== src/Hdlc/Frames/ReceiveReadyRoundTrip.antt =====
-- ReceiveReadyFrame (dlms_cosem/hdlc/frames.py), written and read: it has no information and no
-- header check sequence.
use dlms_cosem.Prelude.{
  ℕ, ◌+◌, ◌*◌, ◌≤◌, ◌<◌, ◌≡◌, ◌≢◌, ◌∙◌, ap, refl, arith, true, false, none, [], ◌∷◌, leb, length,
  All-append, ok, ◌>>=◌, IsByte, IsBytes,
}
use dlms_cosem.Hdlc.Fields.RoundTrip.{ready-to_bytes, ready-round_trip}
use dlms_cosem.Hdlc.Fields.ReceiveReady
use dlms_cosem.Hdlc.Fields.ReceiveReady.{ReceiveReadyControlField}
use dlms_cosem.Hdlc.Address.Defs.{HdlcAddress, address_length}
use dlms_cosem.Hdlc.Address.Wire.{IsReadable, wire, wire_short, client-to_bytes, server-to_bytes}
use dlms_cosem.Hdlc.Frames.Defs.{
  HdlcFrame, final_flag, final_method, frame_content, header_content, receive_ready, frame_length,
  control_bytes, information, hcs, fcs, to_bytes, validated,
}
use dlms_cosem.Hdlc.Frames.Parse.{receive_ready_from_bytes}
use dlms_cosem.Hdlc.Frames.Shape.{framed, frame_check_of-framed}
use dlms_cosem.Hdlc.Frames.Bytes.{
  header_of, to_client, header_content_lem, to_bytes_lem, header-IsBytes,
}
use dlms_cosem.Hdlc.Frames.Places.{content, slice_at, open_content, content_addresses}
use dlms_cosem.Hdlc.Frames.InformationRoundTrip.{check_fcs_lem}

final_method-differs : final_method ≢ final_flag true
final_method-differs e = cc

module _ (l : ℕ) {a : HdlcAddress} (r : IsReadable a) (h : l < 128) (rsn : ℕ) where
  abbrev ready_frame : HdlcFrame
  ready_frame = to_client l r h receive_ready none false true 0 rsn

  -- The frame as it is read: its `final` is a method.
  abbrev read_frame : HdlcFrame
  read_frame = record ready_frame { final = final_method }

  abbrev ready_length : ℕ
  ready_length = 6 + length (wire r)

  abbrev ready_byte : ℕ
  ready_byte = 32 * rsn + 17

  ready_frame_length : frame_length ready_frame ≡ ok ready_length
  unfolding frame_length address_length
  ready_frame_length = rw (client-to_bytes l h) (rw (server-to_bytes r) (ap ok (omega arith)))

  ready_control : rsn ≤ 7 → control_bytes ready_frame ≡ ok (ready_byte ∷ [])
  unfolding control_bytes ReceiveReady.make
  ready_control hr =
      rw (let e : leb rsn 7 ≡ true = ground arith in e)
        (ready-to_bytes (record { receive_sequence_number = rsn }) hr)

  ready_control_read :
      rsn ≤ 7
      → ReceiveReady.from_bytes (ready_byte ∷ []) ≡ ok (record { receive_sequence_number = rsn })
  ready_control_read hr =
      let field : ReceiveReadyControlField = record { receive_sequence_number = rsn } in
      rw (ready-to_bytes field hr) at (ready-round_trip field hr)

  read_fcs : fcs read_frame ≡ fcs ready_frame
  unfolding fcs frame_content header_content frame_length control_bytes information hcs
  read_fcs = refl

  ready_validated : rsn ≤ 7 → validated read_frame ≡ ok read_frame
  unfolding validated
  ready_validated hr = ground arith

  ready_parse :
      (c1 c2 : ℕ)
      → rsn ≤ 7
      → fcs ready_frame ≡ ok (c1 ∷ c2 ∷ [])
      → receive_ready_from_bytes
          (framed (content l r h ready_length false ready_byte [] c1 c2) c1 c2)
        ≡ ok read_frame
  unfolding receive_ready_from_bytes
  ready_parse c1 c2 hr ec =
      let pos : ℕ = 4 + length (wire r) in
      rw
        (open_content l r h ready_length false ready_byte [] c1 c2 (omega (arith, wire_short r))
          (omega arith))
        (rw (content_addresses l r h ready_length false ready_byte [] c1 c2) (
          rw
            (slice_at l r h ready_length false ready_byte [] c1 c2 0 1 pos (pos + 1) (omega arith)
              (omega arith))
            (rw (ready_control_read hr) (
              rw (ready_validated hr) (
                check_fcs_lem _ read_frame c1 c2
                  (frame_check_of-framed (content l r h ready_length false ready_byte [] c1 c2) c1
                    c2)
                  (read_fcs ∙ ec))))))

  different : read_frame ≢ ready_frame
  different e = final_method-differs (ap (λ f. f.final) e)

  -- A ReceiveReadyFrame from a server, whose address can be read back, to a client with an address
  -- under 128 is parsed from its bytes, where its sequence number is up to 7, as a frame with the
  -- same attributes but for `final`: that is a method where the frame written has the flag true, so
  -- that the two frames differ.
  pub receive_ready_from_bytes-to_bytes :
      rsn ≤ 7
      → ((to_bytes ready_frame >>= receive_ready_from_bytes)
          ≡ ok (record ready_frame { final = final_method }))
        × (record ready_frame { final = final_method } ≢ ready_frame)
  receive_ready_from_bytes-to_bytes hr =
      let header = header_of ready_length false ((l * 2 + 1) ∷ wire r) ready_byte in
      let hb : IsBytes header =
        header-IsBytes l r h ready_length false ready_byte (omega (arith, wire_short r))
          (omega arith) in
      let eheader =
        header_content_lem l r h receive_ready none false true 0 rsn ready_length ready_byte
          ready_frame_length (omega (arith, wire_short r)) (ready_control hr) in
      let (c1, c2, e, ef) =
        to_bytes_lem l r h receive_ready none false true 0 rsn header [] eheader
          (unfold hcs in refl) (unfold information in All-append IsByte header [] hb tt) in
      (rw e (unfold information in ready_parse c1 c2 hr ef), different)

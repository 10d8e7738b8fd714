-- ===== src/Hdlc/Frames/Bytes.antt =====
-- The header of a frame to a client, and the bytes that `to_bytes` makes of the frame.
use dlms_cosem.Prelude.{
  ℕ, ◌+◌, ◌*◌, ◌/◌, ◌%◌, ◌<◌, ◌≡◌, arith, Bool, false, Option, List, [], ◌∷◌, ◌++◌, if◌then◌else◌,
  All-append, ok, IsByte, IsBytes,
}
use dlms_cosem.Hdlc.Fields.FrameFormat
use dlms_cosem.Hdlc.Fields.FrameFormat.{DlmsHdlcFrameFormatField}
use dlms_cosem.Hdlc.Fields.RoundTrip.{format-to_bytes, format-round_trip}
use dlms_cosem.Hdlc.Address.Defs.{HdlcAddress}
use dlms_cosem.Hdlc.Address.Wire.{
  client_address, IsReadable, one_byte, two_bytes, four_bytes, wire, client-to_bytes,
  server-to_bytes,
}
use dlms_cosem.Hdlc.Frames.Defs.{
  HdlcFrame, frame_length, header_content, control_bytes, information, hcs, frame_content, fcs,
  to_bytes, FrameClass, final_flag,
}
use dlms_cosem.Hdlc.Frames.Shape.{framed}
use dlms_cosem.Crc.Total.{calculate_for-two_bytes}

-- The two bytes of the format field.
abbrev pub format_high : ℕ → Bool → ℕ
format_high n segmented = if segmented then 0xa8 + n / 256 else 0xa0 + n / 256

abbrev pub header_of : ℕ → Bool → List ℕ → ℕ → List ℕ
header_of n segmented addresses control =
    format_high n segmented ∷ (n % 256) ∷ (addresses ++ (control ∷ []))

pub format_read :
    (n : ℕ) (segmented : Bool)
    → n < 2048
    → FrameFormat.from_bytes (format_high n segmented ∷ (n % 256) ∷ [])
      ≡ ok (record { length_of_frame = n; segmented = segmented })
format_read n segmented h =
    let field : DlmsHdlcFrameFormatField = record { length_of_frame = n; segmented = segmented } in
    rw (format-to_bytes field h) at (format-round_trip field h)

format_make :
    (n : ℕ) (segmented : Bool)
    → n < 2048
    → FrameFormat.make n segmented ≡ ok (record { length_of_frame = n; segmented = segmented })
unfolding FrameFormat.make
format_make n segmented h = ground arith

pub wire-IsBytes : {a : HdlcAddress} (r : IsReadable a) → IsBytes (wire r)
wire-IsBytes (one_byte l h) = omega arith
wire-IsBytes (two_bytes l p hl hl' hp hp') = omega arith
wire-IsBytes (four_bytes l p hl hp hp') = omega arith

module _ (l : ℕ) {a : HdlcAddress} (r : IsReadable a) (h : l < 128) where
  abbrev addresses : List ℕ
  addresses = (l * 2 + 1) ∷ wire r

  pub header-IsBytes :
      (n : ℕ) (segmented : Bool) (control : ℕ)
      → n < 2048
      → control < 256
      → IsBytes (header_of n segmented addresses control)
  header-IsBytes n segmented control hn hc = (
    ground arith,
    (
      omega arith,
      (omega arith, All-append IsByte (wire r) (control ∷ []) (wire-IsBytes r) (omega arith)),
    ),
  )

  -- A frame from the server `a` to the client `l`.
  abbrev pub to_client : FrameClass → Option (List ℕ) → Bool → Bool → ℕ → ℕ → HdlcFrame
  to_client frame_class payload segmented final ssn rsn = record {
    frame_class = frame_class;
    destination_address = client_address l;
    source_address = a;
    payload = payload;
    segmented = segmented;
    final = final_flag final;
    send_sequence_number = ssn;
    receive_sequence_number = rsn;
  }

  module _ (frame_class : FrameClass) (payload : Option (List ℕ)) (segmented final : Bool)
      (ssn rsn : ℕ) where
    abbrev f : HdlcFrame
    f = to_client frame_class payload segmented final ssn rsn

    pub header_content_lem :
        (n control : ℕ)
        → frame_length f ≡ ok n
        → n < 2048
        → control_bytes f ≡ ok (control ∷ [])
        → header_content f ≡ ok (header_of n segmented addresses control)
    unfolding header_content
    header_content_lem n control en hn ec = rw en (
        rw (format_make n segmented hn) (
          rw (format-to_bytes (record { length_of_frame = n; segmented = segmented }) hn)
            (rw (client-to_bytes l h) (rw (server-to_bytes r) (rw ec)))))

    -- The bytes of a frame whose header and header check sequence are known.
    pub to_bytes_lem :
        (header check : List ℕ)
        → header_content f ≡ ok header
        → hcs f ≡ ok check
        → IsBytes (header ++ (check ++ information f))
        → (c1 : ℕ) × (c2 : ℕ) × (to_bytes f
            ≡ ok (framed (header ++ (check ++ information f)) c1 c2))
          × (fcs f ≡ ok (c1 ∷ c2 ∷ []))
    unfolding to_bytes fcs frame_content
    to_bytes_lem header check eh ec bytes =
        let (c1, c2, e, _, _) =
          calculate_for-two_bytes (header ++ (check ++ information f)) false bytes in
        (c1, c2, rw eh (rw ec (rw e)), rw eh (rw ec e))

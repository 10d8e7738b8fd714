-- ===== src/Hdlc/Frames/Places.antt =====
-- The places of a frame to a client that `from_bytes` of dlms_cosem/hdlc/frames.py looks at.
use dlms_cosem.Prelude.{
  ℕ, ◌+◌, ◌-◌, ◌*◌, ◌%◌, ◌<◌, ◌≡◌, ap, ◌∙◌, arith, Bool, List, [], ◌∷◌, ◌++◌, append_assoc, length,
  take, drop, slice, length-append, drop_past, ok,
}
use dlms_cosem.Hdlc.Validators.{client, server}
use dlms_cosem.Hdlc.Address.Defs.{HdlcAddress}
use dlms_cosem.Hdlc.Address.Wire.{client_address, IsReadable, wire}
use dlms_cosem.Hdlc.Frames.Defs.{hdlc_flag}
use dlms_cosem.Hdlc.Frames.Parse.{open_frame, read_addresses, slice_to_check}
use dlms_cosem.Hdlc.Frames.Shape.{
  framed, slice_to_check-framed, open_frame-framed, read_addresses_lem,
}
use dlms_cosem.Hdlc.Frames.Bytes.{format_high, header_of, format_read}

module _ (l : ℕ) {a : HdlcAddress} (r : IsReadable a) (h : l < 128) where
  -- Everything before the control byte.
  abbrev pub front : ℕ → Bool → List ℕ
  front n segmented = hdlc_flag ∷ format_high n segmented ∷ (n % 256) ∷ (l * 2 + 1) ∷ wire r

  module _ (n : ℕ) (segmented : Bool) (control : ℕ) (behind : List ℕ) (c1 c2 : ℕ) where
    abbrev pub content : List ℕ
    content = header_of n segmented ((l * 2 + 1) ∷ wire r) control ++ behind

    abbrev pub end : List ℕ
    end = c1 ∷ c2 ∷ hdlc_flag ∷ []

    content_parts : ◌≡◌ {A = List ℕ} (hdlc_flag ∷ content) (front n segmented ++ (control ∷ behind))
    content_parts =
        ap (λ t. hdlc_flag ∷ format_high n segmented ∷ (n % 256) ∷ (l * 2 + 1) ∷ t)
          (append_assoc (wire r) (control ∷ []) behind)

    framed_parts : framed content c1 c2 ≡ front n segmented ++ (control ∷ (behind ++ end))
    framed_parts =
        ap (λ t. t ++ end) content_parts ∙ append_assoc (front n segmented) (control ∷ behind) end

    pub slice_at :
        (k m i j : ℕ)
        → i ≡ 4 + length (wire r) + k
        → j ≡ i + m
        → slice (framed content c1 c2) i j ≡ take m (drop k (control ∷ (behind ++ end)))
    slice_at k m i j hi hj =
        ap (λ t. take t (drop i (framed content c1 c2))) (let e : j - i ≡ m = omega arith in e)
        ∙ ap (λ t. take m (drop i t)) framed_parts
        ∙ ap (take m) (drop_past (front n segmented) (control ∷ (behind ++ end)) i k (omega arith))

    pub behind_to_check :
        (k i : ℕ)
        → i ≡ 4 + length (wire r) + k
        → slice_to_check (framed content c1 c2) i ≡ drop k (control ∷ behind)
    behind_to_check k i hi =
        slice_to_check-framed content c1 c2 i
        ∙ ap (drop i) content_parts
        ∙ drop_past (front n segmented) (control ∷ behind) i k (omega arith)

    pub length-content : length content ≡ 4 + length (wire r) + length behind
    length-content =
        omega (arith, ap length content_parts, length-append (front n segmented) (control ∷ behind))

    pub open_content :
        n < 2048
        → n ≡ length behind + 6 + length (wire r)
        → open_frame (framed content c1 c2)
          ≡ ok (record { length_of_frame = n; segmented = segmented })
    open_content hn e =
        open_frame-framed (format_high n segmented) (n % 256)
          ((((l * 2 + 1) ∷ wire r) ++ (control ∷ [])) ++ behind) c1 c2
          (record { length_of_frame = n; segmented = segmented }) (format_read n segmented hn)
          (omega (arith, length-content))

    pub content_addresses :
        read_addresses (framed content c1 c2) client server
        ≡ ok (record {
          destination = client_address l;
          source = a;
          control_position = 4 + length (wire r);
        })
    content_addresses = rw framed_parts (read_addresses_lem _ _ _ l r (control ∷ (behind ++ end)) h)

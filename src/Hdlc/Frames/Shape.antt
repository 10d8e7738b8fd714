-- ===== src/Hdlc/Frames/Shape.antt =====
-- The shape of a frame in bytes: flag, content, check sequence, flag; and what `from_bytes` reads
-- at each place.
use dlms_cosem.Prelude.{
  ℕ, suc, ◌+◌, ◌-◌, ◌*◌, ◌<◌, ◌≡◌, sym, ap, ◌∙◌, arith, true, List, [], ◌∷◌, ◌++◌, append_assoc,
  ◌==◌, ==_iff, length, get_elem?, take, drop, length-append, take_prefix, drop_prefix, ok,
  or_raise, index_error,
}
use dlms_cosem.Hdlc.Validators.{client, server}
use dlms_cosem.Hdlc.Fields.FrameFormat
use dlms_cosem.Hdlc.Fields.FrameFormat.{DlmsHdlcFrameFormatField}
use dlms_cosem.Hdlc.Address.Defs.{HdlcAddress, address_length}
use dlms_cosem.Hdlc.Address.Wire.{
  client_address, IsReadable, wire, client-to_bytes, server-to_bytes,
}
use dlms_cosem.Hdlc.Address.RoundTrip.{to_client_addresses}
use dlms_cosem.Hdlc.Frames.Defs.{hdlc_flag}
use dlms_cosem.Hdlc.Frames.Parse.{
  open_frame, read_addresses, frame_check_of, slice_to_check, last_byte,
  frame_is_enclosed_by_hdlc_flags,
}

abbrev pub framed : List ℕ → ℕ → ℕ → List ℕ
framed content c1 c2 = hdlc_flag ∷ (content ++ (c1 ∷ c2 ∷ hdlc_flag ∷ []))

get_elem?-append : (xs ys : List ℕ) (i : ℕ) → get_elem? (xs ++ ys) (length xs + i) ≡ get_elem? ys i
get_elem?-append [] ys i = ap (get_elem? ys) (omega arith)
get_elem?-append (x ∷ xs) ys i =
    ap (get_elem? (x ∷ (xs ++ ys)))
      (let e : suc (length xs) + i ≡ suc (length xs + i) = omega arith in e)
    ∙ get_elem?-append xs ys i

module _ (content : List ℕ) (c1 c2 : ℕ) where
  abbrev tail : List ℕ
  tail = c1 ∷ c2 ∷ hdlc_flag ∷ []

  pub length-framed : length (framed content c1 c2) ≡ length content + 4
  length-framed = omega (arith, length-append content tail)

  last_byte-framed : last_byte (framed content c1 c2) ≡ ok hdlc_flag
  last_byte-framed = ap (or_raise index_error) (
      ap (get_elem? (framed content c1 c2)) (
        let e : length (framed content c1 c2) - 1 ≡ suc (length content + 2) =
          omega (arith, length-framed) in
        e)
      ∙ get_elem?-append content tail 2)

  enclosed-framed : frame_is_enclosed_by_hdlc_flags (framed content c1 c2) ≡ ok true
  unfolding frame_is_enclosed_by_hdlc_flags
  enclosed-framed = rw last_byte-framed

  take_to_check :
      take (length (framed content c1 c2) - 3) (framed content c1 c2) ≡ hdlc_flag ∷ content
  take_to_check =
      take_prefix (hdlc_flag ∷ content) tail (length (framed content c1 c2) - 3)
        (omega (arith, length-framed))

  pub slice_to_check-framed :
      (k : ℕ) → slice_to_check (framed content c1 c2) k ≡ drop k (hdlc_flag ∷ content)
  slice_to_check-framed k = ap (drop k) take_to_check

  pub frame_check_of-framed : frame_check_of (framed content c1 c2) ≡ c1 ∷ c2 ∷ []
  frame_check_of-framed =
      ap (drop (length (framed content c1 c2) - 3)) (
        ap (take (length (framed content c1 c2) - 1)) (
          let e : framed content c1 c2
              ≡ (hdlc_flag ∷ (content ++ (c1 ∷ c2 ∷ []))) ++ (hdlc_flag ∷ []) =
            ap (λ t. hdlc_flag ∷ t) (sym (append_assoc content (c1 ∷ c2 ∷ []) (hdlc_flag ∷ []))) in
          e)
        ∙ take_prefix (hdlc_flag ∷ (content ++ (c1 ∷ c2 ∷ []))) (hdlc_flag ∷ []) _
            (omega (arith, length-framed, length-append content (c1 ∷ c2 ∷ []))))
      ∙ drop_prefix (hdlc_flag ∷ content) (c1 ∷ c2 ∷ []) _ (omega (arith, length-framed))

pub open_frame-framed :
    (b1 b2 : ℕ) (rest : List ℕ) (c1 c2 : ℕ) (field : DlmsHdlcFrameFormatField)
    → FrameFormat.from_bytes (b1 ∷ b2 ∷ []) ≡ ok field
    → field.length_of_frame ≡ length rest + 4
    → open_frame (framed (b1 ∷ b2 ∷ rest) c1 c2) ≡ ok field
unfolding open_frame
open_frame-framed b1 b2 rest c1 c2 field e n = rw (enclosed-framed (b1 ∷ b2 ∷ rest) c1 c2) (
    rw e (
      let m : (field.length_of_frame + 2 == length (framed (b1 ∷ b2 ∷ rest) c1 c2)) ≡ true =
        (==_iff _ _).1 (omega (arith, length-framed (b1 ∷ b2 ∷ rest) c1 c2)) in
      rw m))

-- Both addresses of a frame to a client, and the position behind them.
pub read_addresses_lem :
    (f0 f1 f2 l : ℕ) {a : HdlcAddress} (r : IsReadable a) (rest : List ℕ)
    → l < 128
    → read_addresses (f0 ∷ f1 ∷ f2 ∷ (l * 2 + 1) ∷ (wire r ++ rest)) client server
      ≡ ok (record {
        destination = client_address l;
        source = a;
        control_position = 4 + length (wire r);
      })
unfolding read_addresses address_length
read_addresses_lem f0 f1 f2 l r rest h =
    let (d, s) = to_client_addresses f0 f1 f2 l r rest h in
    rw d (rw s (rw (client-to_bytes l h) (rw (server-to_bytes r))))

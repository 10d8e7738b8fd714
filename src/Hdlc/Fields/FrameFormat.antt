-- ===== src/Hdlc/Fields/FrameFormat.antt =====
-- DlmsHdlcFrameFormatField (dlms_cosem/hdlc/fields.py).
use dlms_cosem.Prelude.{ℕ, Bool, List, Result, ok, require, ◌>>=◌, ◌>>◌, value_error, index_error}
use dlms_cosem.Prelude.{◌==◌, leb, if◌then◌else◌, length, get_elem?, bit_and, bit_or, truthy}
use dlms_cosem.Prelude.{int_to_bytes, int_from_bytes, or_raise, hdlc_parsing_error}

pub record DlmsHdlcFrameFormatField : Type 0 where
  pub length_of_frame : ℕ
  pub segmented : Bool

unfoldable pub validate_frame_length : ℕ → Result (Unit {0})
validate_frame_length value = require (leb value 0b11111111111) value_error

unfoldable pub make : ℕ → Bool → Result DlmsHdlcFrameFormatField
unfolding validate_frame_length
make n segmented = do
  validate_frame_length n
  ok (record { length_of_frame = n; segmented = segmented })

unfoldable pub correct_frame_format : List ℕ → Result Bool
correct_frame_format bytes = do
  leftmost ← or_raise index_error (get_elem? bytes 0)
  ok (bit_and leftmost 0b11110000 == 0b10100000)

unfoldable pub get_length_from_bytes : List ℕ → ℕ
get_length_from_bytes bytes = bit_and (int_from_bytes bytes) 0b0000011111111111

unfoldable pub from_bytes : List ℕ → Result DlmsHdlcFrameFormatField
unfolding make correct_frame_format get_length_from_bytes
from_bytes in_bytes = do
  require (length in_bytes == 2) hdlc_parsing_error
  correct ← correct_frame_format in_bytes
  require correct hdlc_parsing_error
  leftmost ← or_raise index_error (get_elem? in_bytes 0)
  make (get_length_from_bytes in_bytes) (truthy (bit_and leftmost 0b00001000))

unfoldable pub to_bytes : DlmsHdlcFrameFormatField → Result (List ℕ)
to_bytes f =
    let total = bit_or 0b1010000000000000 f.length_of_frame in
    int_to_bytes 2 (if f.segmented then bit_or total 0b0000100000000000 else total)

-- ===== src/Hdlc/Address/Parse.antt =====
-- Finding the two addresses in the bytes of a frame (dlms_cosem/hdlc/address.py).
use dlms_cosem.Prelude.{
  ℕ, ◌+◌, Bool, false, Option, none, some, List, [], ◌∷◌, ◌++◌, ltb, ◌==◌, if◌then◌else◌, length,
  take, drop, slice, Result, ok, raise, ◌>>=◌, ◌>>◌, require, byte_at, value_error, index_error,
  bit_and, shl, shr, truthy,
}
use dlms_cosem.Hdlc.Validators.{AddressType}
use dlms_cosem.Hdlc.Address.Defs.{HdlcAddress, make}

-- `bool(b & 0b00000001)`: the mark of the last byte of an address.
abbrev pub is_end : ℕ → Bool
is_end b = truthy (bit_and b 0b00000001)

unfoldable pub parse_two_byte_address : List ℕ → Result ℕ
parse_two_byte_address bytes = do
  require (length bytes == 2) value_error
  upper ← byte_at bytes 0
  lower ← byte_at bytes 1
  ok (shr lower 1 + shl (shr upper 1) 7)

-- The loop over the positions where an address may end; without an end the length stays 1.
unfoldable pub find_length : List ℕ → List (ℕ × ℕ) → Result ℕ
find_length frame [] = ok 1
find_length frame ((pos, len) ∷ positions) =
    let rest = find_length frame positions in
    do end_byte ← byte_at frame pos; if is_end end_byte then ok len else rest

-- The address of a given length that begins at `start`.
unfoldable pub read_address : List ℕ → ℕ → ℕ → Result (ℕ × Option ℕ)
unfolding parse_two_byte_address
read_address frame start len =
    if len == 1
    then (do b ← byte_at frame start; ok (shr b 1, none))
    else if len == 2
    then (do
      let bytes = slice frame start (start + 2)
      logical ← byte_at bytes 0
      physical ← byte_at bytes 1
      ok (shr logical 1, some (shr physical 1)))
    else if len == 4
    then (do
      let bytes = slice frame start (start + 4)
      logical ← parse_two_byte_address (take 2 bytes)
      physical ← parse_two_byte_address (drop 2 bytes)
      ok (logical, some physical))
    else ok (0, some 0)

pub record Found : Type 0 where
  pub logical : ℕ
  pub physical : Option ℕ
  pub len : ℕ

unfoldable pub find_at : List ℕ → ℕ → Result Found
unfolding find_length read_address
find_at frame offset = do
  len ← find_length frame ((3 + offset, 1) ∷ (4 + offset, 2) ∷ (6 + offset, 4) ∷ [])
  (logical, physical) ← read_address frame (3 + offset) len
  ok (record { logical = logical; physical = physical; len = len })

-- The destination begins behind the flag and the format field, the source behind the destination.
unfoldable pub find_address_in_frame_bytes : List ℕ → Result (Found × Found)
unfolding find_at
find_address_in_frame_bytes frame = do
  destination ← find_at frame 0
  source ← find_at frame destination.len
  ok (destination, source)

unfoldable pub destination_from_bytes : List ℕ → AddressType → Result HdlcAddress
unfolding find_address_in_frame_bytes make
destination_from_bytes frame address_type = do
  (found, _) ← find_address_in_frame_bytes frame
  make found.logical found.physical address_type false

-- Only here four bytes are taken for extended addressing.
unfoldable pub source_from_bytes : List ℕ → AddressType → Result HdlcAddress
unfolding find_address_in_frame_bytes make
source_from_bytes frame address_type = do
  (_, found) ← find_address_in_frame_bytes frame
  make found.logical found.physical address_type (found.len == 4)

-- The loop of `extract_address_bytes`.
extract_loop : List ℕ → List ℕ → Result (List ℕ × List ℕ)
extract_loop address [] = raise index_error
extract_loop address (b ∷ rest) =
    let address' = address ++ (b ∷ []) in
    let more = extract_loop address' rest in
    if ltb 4 (length address')
    then raise value_error
    else if is_end b
    then ok (address', rest)
    else more

unfoldable pub extract_address_bytes : List ℕ → Result (List ℕ × List ℕ)
unfolding extract_loop
extract_address_bytes in_data = extract_loop [] in_data

-- ===== src/Hdlc/Address/Wire.antt =====
-- The bytes of the addresses of dlms_cosem/hdlc/address.py that have one, two or four of them.
use dlms_cosem.Prelude.{
  length, ◌≤◌, ℕ, ◌+◌, ◌*◌, ◌/◌, ◌%◌, ◌<◌, ◌≡◌, arith, Bool, true, false, Option, none, some, List,
  [], ◌∷◌, ok,
}
use dlms_cosem.Hdlc.Validators.{client, server}
use dlms_cosem.Hdlc.Address.Defs.{HdlcAddress, split_address, to_bytes}
use dlms_cosem.Hdlc.Address.Bits.{or_one, low_seven, high_seven}

abbrev pub client_address : ℕ → HdlcAddress
client_address l = record {
  logical_address = l;
  physical_address = none;
  address_type = client;
  extended_addressing = false;
}

abbrev pub server_address : ℕ → Option ℕ → Bool → HdlcAddress
server_address l p extended = record {
  logical_address = l;
  physical_address = p;
  address_type = server;
  extended_addressing = extended;
}

-- The server addresses that can be read back: one byte, two bytes with a physical address, and
-- four bytes in extended addressing.
pub data IsReadable : HdlcAddress → Type 0 where
  one_byte : (l : ℕ) → l < 128 → IsReadable (server_address l none false)
  two_bytes :
      (l p : ℕ) → 0 < l → l < 128 → 0 < p → p < 128 → IsReadable (server_address l (some p) false)
  four_bytes :
      (l p : ℕ) → l < 16384 → 0 < p → p < 16384 → IsReadable (server_address l (some p) true)

-- Their bytes.
abbrev pub wire : {a : HdlcAddress} → IsReadable a → List ℕ
wire (one_byte l _) = (l * 2 + 1) ∷ []
wire (two_bytes l p _ _ _ _) = (l * 2) ∷ (p * 2 + 1) ∷ []
wire (four_bytes l p _ _ _) = (l / 128 * 2) ∷ (l % 128 * 2) ∷ (p / 128 * 2) ∷ (p % 128 * 2 + 1) ∷ []

split_address_lem : (n : ℕ) → n < 16384 → split_address n ≡ (n / 128 * 2, n % 128 * 2)
unfolding split_address
split_address_lem n h = ground (arith, low_seven n h, high_seven n h)

pub client-to_bytes : (l : ℕ) → l < 128 → to_bytes (client_address l) ≡ ok ((l * 2 + 1) ∷ [])
unfolding to_bytes
client-to_bytes l h = rw (or_one l h) (ground arith)

pub server-to_bytes : {a : HdlcAddress} (r : IsReadable a) → to_bytes a ≡ ok (wire r)
unfolding to_bytes
server-to_bytes (one_byte l h) = rw (split_address_lem l (omega arith)) (ground (arith, or_one l h))
server-to_bytes (two_bytes l p hl hl' hp hp') =
    rw (split_address_lem l (omega arith), split_address_lem p (omega arith))
      (ground (arith, or_one p hp'))
server-to_bytes (four_bytes l p hl hp hp') =
    rw (split_address_lem l hl, split_address_lem p hp')
      (ground (arith, or_one (p % 128) (omega arith)))

pub wire_short : {a : HdlcAddress} (r : IsReadable a) → length (wire r) ≤ 4
wire_short (one_byte l h) = omega arith
wire_short (two_bytes l p hl hl' hp hp') = omega arith
wire_short (four_bytes l p hl hp hp') = omega arith

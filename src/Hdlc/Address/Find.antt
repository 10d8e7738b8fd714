-- ===== src/Hdlc/Address/Find.antt =====
-- find_address_in_frame_bytes (dlms_cosem/hdlc/address.py) on the bytes of addresses.
use dlms_cosem.Prelude.{
  ℕ, ◌+◌, ◌*◌, ◌/◌, ◌%◌, ◌<◌, ◌≡◌, arith, true, false, none, some, List, ◌∷◌, ◌++◌, ok,
}
use dlms_cosem.Hdlc.Fields.Bits.{low_bit}
use dlms_cosem.Hdlc.Address.Defs.{HdlcAddress}
use dlms_cosem.Hdlc.Address.Wire.{IsReadable, one_byte, two_bytes, four_bytes, wire}
use dlms_cosem.Hdlc.Address.Parse.{Found, is_end, find_at}

is_end_even : (n : ℕ) → n < 128 → is_end (n * 2) ≡ false
is_end_even n h = rw (low_bit (n * 2) (omega arith)) (ground arith)

is_end_odd : (n : ℕ) → n < 128 → is_end (n * 2 + 1) ≡ true
is_end_odd n h = rw (low_bit (n * 2 + 1) (omega arith)) (ground arith)

-- What the parser reports of an address.
abbrev pub found : {a : HdlcAddress} → IsReadable a → Found
found (one_byte l _) = record { logical = l; physical = none; len = 1 }
found (two_bytes l p _ _ _ _) = record { logical = l; physical = some p; len = 2 }
found (four_bytes l p _ _ _) = record { logical = l; physical = some p; len = 4 }

abbrev pub found_client : ℕ → Found
found_client l = record { logical = l; physical = none; len = 1 }

module _ (f0 f1 f2 : ℕ) where
  pub find-client :
      (l : ℕ) (rest : List ℕ)
      → l < 128
      → find_at (f0 ∷ f1 ∷ f2 ∷ (l * 2 + 1) ∷ rest) 0 ≡ ok (found_client l)
  unfolding find_at
  find-client l rest h = ground (arith, is_end_odd l h)

  pub find-server :
      {a : HdlcAddress} (r : IsReadable a) (rest : List ℕ)
      → find_at (f0 ∷ f1 ∷ f2 ∷ (wire r ++ rest)) 0 ≡ ok (found r)
  unfolding find_at
  find-server (one_byte l h) rest = ground (arith, is_end_odd l h)
  find-server (two_bytes l p hl hl' hp hp') rest =
      ground (arith, is_end_even l hl', is_end_odd p hp')
  find-server (four_bytes l p hl hp hp') rest = ground (
    arith,
    is_end_even (l / 128) (omega arith),
    is_end_even (l % 128) (omega arith),
    is_end_odd (p % 128) (omega arith),
  )

  pub find-server_source :
      (c : ℕ) {a : HdlcAddress} (r : IsReadable a) (rest : List ℕ)
      → find_at (f0 ∷ f1 ∷ f2 ∷ c ∷ (wire r ++ rest)) 1 ≡ ok (found r)
  unfolding find_at
  find-server_source c (one_byte l h) rest = ground (arith, is_end_odd l h)
  find-server_source c (two_bytes l p hl hl' hp hp') rest =
      ground (arith, is_end_even l hl', is_end_odd p hp')
  find-server_source c (four_bytes l p hl hp hp') rest = ground (
    arith,
    is_end_even (l / 128) (omega arith),
    is_end_even (l % 128) (omega arith),
    is_end_odd (p % 128) (omega arith),
  )

  pub find-client_source :
      (l : ℕ) {a : HdlcAddress} (r : IsReadable a) (rest : List ℕ)
      → l < 128
      → find_at (f0 ∷ f1 ∷ f2 ∷ (wire r ++ ((l * 2 + 1) ∷ rest))) (found r).len
        ≡ ok (found_client l)
  unfolding find_at
  find-client_source l (one_byte _ _) rest h = ground (arith, is_end_odd l h)
  find-client_source l (two_bytes _ _ _ _ _ _) rest h = ground (arith, is_end_odd l h)
  find-client_source l (four_bytes _ _ _ _ _) rest h = ground (arith, is_end_odd l h)

-- ===== src/Hdlc/Address/Defs.antt =====
-- HdlcAddress (dlms_cosem/hdlc/address.py): an address of one, two or four bytes.
use dlms_cosem.Prelude.{
  ℕ, Bool, not, ◌&&◌, Option, none, some, List, [], ◌∷◌, ◌++◌, ltb, ◌==◌, if◌then◌else◌, length,
  Result, ok, ◌>>=◌, ◌>>◌, bit_and, bit_or, shl, shr, truthy, int_to_bytes,
}
use dlms_cosem.Hdlc.Validators.{
  AddressType, client, server, unknown, validate_hdlc_address, validate_hdlc_address_type,
}

pub record HdlcAddress : Type 0 where
  pub logical_address : ℕ
  pub physical_address : Option ℕ
  pub address_type : AddressType
  pub extended_addressing : Bool

-- The constructor, with the validators in the order of the attributes.
unfoldable pub make : ℕ → Option ℕ → AddressType → Bool → Result HdlcAddress
unfolding validate_hdlc_address validate_hdlc_address_type
make logical physical address_type extended = do
  validate_hdlc_address address_type (some logical)
  validate_hdlc_address address_type physical
  validate_hdlc_address_type address_type
  ok (record {
    logical_address = logical;
    physical_address = physical;
    address_type = address_type;
    extended_addressing = extended;
  })

-- The higher and the lower seven bits, each shifted left by one.
unfoldable pub split_address : ℕ → ℕ × ℕ
split_address address =
    if ltb 0b01111111 address
    then (shr (bit_and address 0b0011111110000000) 6, shl (bit_and address 0b0000000001111111) 1)
    else (0, shl address 1)

-- `if self.physical_address`: `None` and 0 are both false.
server_parts : ℕ → Option ℕ → List ℕ
unfolding split_address
server_parts logical none =
    let (higher, lower) = split_address logical in higher ∷ bit_or lower 1 ∷ []
server_parts logical (some physical) =
    let (logical_higher, logical_lower) = split_address logical in
    let (physical_higher, physical_lower) = split_address physical in
    if truthy physical
    then logical_higher ∷ logical_lower ∷ physical_higher ∷ bit_or physical_lower 1 ∷ []
    else logical_higher ∷ bit_or logical_lower 1 ∷ []

address_parts : AddressType → ℕ → Option ℕ → List ℕ
unfolding server_parts
address_parts client logical physical = bit_or (shl logical 1) 1 ∷ []
address_parts server logical physical = server_parts logical physical
address_parts unknown logical physical = server_parts logical physical

-- The loop over `out`: a part that is 0 is written only in extended addressing.
join_parts : Bool → List ℕ → Result (List ℕ)
join_parts extended [] = ok []
join_parts extended (part ∷ parts) = do
  bytes ← if part == 0 && not extended then ok [] else int_to_bytes 1 part
  rest ← join_parts extended parts
  ok (bytes ++ rest)

unfoldable pub to_bytes : HdlcAddress → Result (List ℕ)
unfolding address_parts join_parts
to_bytes a =
    join_parts a.extended_addressing
      (address_parts a.address_type a.logical_address a.physical_address)

-- The property `length`.
unfoldable pub address_length : HdlcAddress → Result ℕ
address_length a = do bytes ← to_bytes a; ok (length bytes)

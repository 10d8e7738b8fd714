-- ===== src/Hdlc/Address/RoundTrip.antt =====
-- Reading the addresses of a frame (dlms_cosem/hdlc/address.py), in both directions of the link.
use dlms_cosem.Prelude.{ℕ, ◌+◌, ◌*◌, ◌<◌, ◌≡◌, arith, false, none, List, ◌∷◌, ◌++◌, ◌==◌, ok}
use dlms_cosem.Hdlc.Validators.{client, server}
use dlms_cosem.Hdlc.Address.Defs.{HdlcAddress, make}
use dlms_cosem.Hdlc.Address.Wire.{client_address, IsReadable, one_byte, two_bytes, four_bytes, wire}
use dlms_cosem.Hdlc.Address.Parse.{
  find_address_in_frame_bytes, destination_from_bytes, source_from_bytes,
}
use dlms_cosem.Hdlc.Address.Find.{found, found_client, find-client, find-server_source}

make-found :
    {a : HdlcAddress} (r : IsReadable a)
    → make (found r).logical (found r).physical server ((found r).len == 4) ≡ ok a
unfolding make
make-found (one_byte l h) = ground arith
make-found (two_bytes l p hl hl' hp hp') = ground arith
make-found (four_bytes l p hl hp hp') = ground arith

make_client : (l : ℕ) → l < 128 → make l none client false ≡ ok (client_address l)
unfolding make
make_client l h = ground arith

module _ (f0 f1 f2 l : ℕ) {a : HdlcAddress} (r : IsReadable a) (rest : List ℕ) (h : l < 128) where
  abbrev pub to_client : List ℕ
  to_client = f0 ∷ f1 ∷ f2 ∷ (l * 2 + 1) ∷ (wire r ++ rest)

  abbrev pub to_server : List ℕ
  to_server = f0 ∷ f1 ∷ f2 ∷ (wire r ++ ((l * 2 + 1) ∷ rest))

  find_to_client : find_address_in_frame_bytes to_client ≡ ok (found_client l, found r)
  unfolding find_address_in_frame_bytes
  find_to_client =
      rw (find-client f0 f1 f2 l (wire r ++ rest) h)
        (rw (find-server_source f0 f1 f2 (l * 2 + 1) r rest))

  -- In a frame to a client, whatever stands in its first three bytes and behind the addresses, the
  -- destination is read as the client address, under 128, and the source as the server address.
  pub to_client_addresses :
      (destination_from_bytes to_client client ≡ ok (client_address l))
      × (source_from_bytes to_client server ≡ ok a)
  unfolding destination_from_bytes source_from_bytes
  to_client_addresses = (rw find_to_client (make_client l h), rw find_to_client (make-found r))

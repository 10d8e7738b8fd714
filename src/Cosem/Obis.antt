-- ===== src/Cosem/Obis.antt =====
-- Obis (dlms_cosem/cosem/obis.py), as bytes. Its validators never refuse: `0 > value > 255` does not
-- hold of any number.
use dlms_cosem.Prelude.{
  ℕ, ◌<◌, ◌≡◌, refl, arith, List, [], ◌∷◌, ◌==◌, ◌&&◌, ltb, length, Result, ok, ◌>>=◌, ◌>>◌,
  require, value_error, byte_at,
}

pub record Obis : Type 0 where
  pub a : ℕ
  pub b : ℕ
  pub c : ℕ
  pub d : ℕ
  pub e : ℕ
  pub f : ℕ

unfoldable pub from_bytes : List ℕ → Result Obis
from_bytes source_bytes = do
  require (length source_bytes == 6) value_error
  a ← byte_at source_bytes 0
  b ← byte_at source_bytes 1
  c ← byte_at source_bytes 2
  d ← byte_at source_bytes 3
  e ← byte_at source_bytes 4
  f ← byte_at source_bytes 5
  ok (record { a = a; b = b; c = c; d = d; e = e; f = f })

-- A bytearray takes numbers below 256.
unfoldable pub to_bytes : Obis → Result (List ℕ)
to_bytes o = do
  require (ltb o.a 256 && ltb o.b 256 && ltb o.c 256 && ltb o.d 256 && ltb o.e 256 && ltb o.f 256)
      value_error
  ok (o.a ∷ o.b ∷ o.c ∷ o.d ∷ o.e ∷ o.f ∷ [])

-- Six parts that fit a byte each.
pub record IsObis (o : Obis) : Type 0 where
  pub a_fits : o.a < 256
  pub b_fits : o.b < 256
  pub c_fits : o.c < 256
  pub d_fits : o.d < 256
  pub e_fits : o.e < 256
  pub f_fits : o.f < 256

abbrev pub obis_bytes : Obis → List ℕ
obis_bytes o = o.a ∷ o.b ∷ o.c ∷ o.d ∷ o.e ∷ o.f ∷ []

pub to_bytes_lem : (o : Obis) → IsObis o → to_bytes o ≡ ok (obis_bytes o)
unfolding to_bytes
to_bytes_lem o h = ground arith

pub from_bytes_lem : (o : Obis) → from_bytes (obis_bytes o) ≡ ok o
unfolding from_bytes
from_bytes_lem o = refl

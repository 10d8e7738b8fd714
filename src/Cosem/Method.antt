-- ===== src/Cosem/Method.antt =====
-- CosemAttribute and CosemMethod (dlms_cosem/cosem/base.py), which differ in the name of the last
-- attribute only.
use dlms_cosem.Prelude.{
  ℕ, ◌-◌, ◌<◌, ◌≡◌, refl, ap, ◌∙◌, arith, List, [], ◌∷◌, ◌++◌, ◌==◌, length, take, slice, Result,
  ok, ◌>>=◌, ◌>>◌, require, value_error, byte_at, int_to_bytes, int_from_bytes,
}
use dlms_cosem.Cosem.Interface.{
  CosemInterface, cosem_interface, cosem_interface_value, cosem_interface_lem,
  cosem_interface_bound,
}
use dlms_cosem.Cosem.Obis
use dlms_cosem.Cosem.Obis.{Obis, IsObis, obis_bytes}

pub record CosemMethod : Type 0 where
  pub interface : CosemInterface
  pub instance_ : Obis
  pub method : ℕ

unfoldable pub from_bytes : List ℕ → Result CosemMethod
from_bytes source_bytes = do
  require (length source_bytes == 9) value_error
  interface ← cosem_interface (int_from_bytes (take 2 source_bytes))
  instance_ ← Obis.from_bytes (slice source_bytes 2 8)
  method ← byte_at source_bytes (length source_bytes - 1)
  ok (record { interface = interface; instance_ = instance_; method = method })

unfoldable pub to_bytes : CosemMethod → Result (List ℕ)
to_bytes m = do
  interface ← int_to_bytes 2 (cosem_interface_value m.interface)
  instance_ ← Obis.to_bytes m.instance_
  method ← int_to_bytes 1 m.method
  ok (interface ++ (instance_ ++ method))

-- The parts and the number of the method fit a byte each.
pub record IsMethod (m : CosemMethod) : Type 0 where
  pub instance_fits : IsObis m.instance_
  pub method_fits : m.method < 256

abbrev pub method_bytes : CosemMethod → List ℕ
method_bytes m = 0 ∷ cosem_interface_value m.interface ∷ (obis_bytes m.instance_ ++ (m.method ∷ []))

pub two_bytes : (v : ℕ) → v < 256 → int_to_bytes 2 v ≡ ok (0 ∷ v ∷ [])
two_bytes v h = ground arith

pub one_byte : (v : ℕ) → v < 256 → int_to_bytes 1 v ≡ ok (v ∷ [])
one_byte v h = ground arith

pub to_bytes_lem : (m : CosemMethod) → IsMethod m → to_bytes m ≡ ok (method_bytes m)
unfolding to_bytes
to_bytes_lem m h =
    let value = cosem_interface_value m.interface in
    let two : int_to_bytes 2 value ≡ ok (0 ∷ value ∷ []) =
      two_bytes value (cosem_interface_bound m.interface) in
    let one : int_to_bytes 1 m.method ≡ ok (m.method ∷ []) = one_byte m.method h.method_fits in
    rw two (rw (Obis.to_bytes_lem m.instance_ h.instance_fits) (rw one refl))

pub from_bytes_lem : (m : CosemMethod) → from_bytes (method_bytes m) ≡ ok m
unfolding from_bytes
from_bytes_lem m =
    let value : int_from_bytes (0 ∷ cosem_interface_value m.interface ∷ [])
        ≡ cosem_interface_value m.interface =
      omega arith in
    rw (ap cosem_interface value ∙ cosem_interface_lem m.interface)
      (rw (Obis.from_bytes_lem m.instance_) refl)

-- CosemAttribute, with the number of the attribute for that of the method.
abbrev pub CosemAttribute : Type 0
CosemAttribute = CosemMethod

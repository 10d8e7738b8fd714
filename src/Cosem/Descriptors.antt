-- ===== src/Cosem/Descriptors.antt =====
-- The access descriptors of dlms_cosem/cosem/selective_access.py. The bytes of a RangeDescriptor,
-- which go through the A-XDR decoder and the dates of dlms_cosem/time.py, are an interface.
use dlms_cosem.Prelude.{
  ℕ, List, ◌==◌, if◌then◌else◌, Result, raise, ◌>>=◌, ok, value_error, not_implemented_error,
  byte_at,
}

-- RangeDescriptor.to_bytes and RangeDescriptor.from_bytes, which reads to the end of its bytes.
pub record RangeCodec (RangeDescriptor : Type 0) : Type 0 where
  pub to_bytes : RangeDescriptor → Result (List ℕ)
  pub from_bytes : List ℕ → Result RangeDescriptor

pub record EntryDescriptor : Type 0 where
  pub from_entry : ℕ
  pub to_entry : ℕ
  pub from_selected_value : ℕ
  pub to_selected_value : ℕ

-- `Union[RangeDescriptor, EntryDescriptor]`
pub data AccessDescriptor (RangeDescriptor : Type 0) : Type 0 where
  range_descriptor : RangeDescriptor → AccessDescriptor RangeDescriptor
  entry_descriptor : EntryDescriptor → AccessDescriptor RangeDescriptor

unfoldable pub entry_to_bytes : EntryDescriptor → Result (List ℕ)
entry_to_bytes e = raise not_implemented_error

unfoldable pub entry_from_bytes : List ℕ → Result EntryDescriptor
entry_from_bytes source_bytes = raise not_implemented_error

module _ {RangeDescriptor : Type 0} (ranges : RangeCodec RangeDescriptor) where
  -- The method of the class of the descriptor.
  unfoldable pub to_bytes : AccessDescriptor RangeDescriptor → Result (List ℕ)
  unfolding entry_to_bytes
  to_bytes (range_descriptor r) = ranges.to_bytes r
  to_bytes (entry_descriptor e) = entry_to_bytes e

  -- AccessDescriptorFactory.from_bytes
  unfoldable pub from_bytes : List ℕ → Result (AccessDescriptor RangeDescriptor)
  unfolding entry_from_bytes
  from_bytes source_bytes = do
    access_descriptor ← byte_at source_bytes 0
    if access_descriptor == 1
        then (ranges.from_bytes source_bytes >>= λ r. ok (range_descriptor r))
        else if access_descriptor == 2
        then (entry_from_bytes source_bytes >>= λ e. ok (entry_descriptor e))
        else raise value_error

-- ===== src/Cosem/Selection.antt =====
-- CosemAttributeWithSelection (dlms_cosem/cosem/attribute_with_selection.py).
use dlms_cosem.Prelude.{
  ℕ, ◌≡◌, refl, Bool, true, false, Option, none, some, List, [], ◌∷◌, ◌++◌, take, drop, Result, ok,
  ◌>>=◌, truthy, pop,
}
use dlms_cosem.Cosem.Method.{CosemAttribute, IsMethod, method_bytes}
use dlms_cosem.Cosem.Method
use dlms_cosem.Cosem.Descriptors.{AccessDescriptor, RangeCodec}
use dlms_cosem.Cosem.Descriptors

pub record CosemAttributeWithSelection (RangeDescriptor : Type 0) : Type 0 where
  pub attribute : CosemAttribute
  pub access_selection : Option (AccessDescriptor RangeDescriptor)

module _ {RangeDescriptor : Type 0} (ranges : RangeCodec RangeDescriptor) where
  -- `if self.access_selection`
  unfoldable pub selection_to_bytes : Option (AccessDescriptor RangeDescriptor) → Result (List ℕ)
  selection_to_bytes none = ok (0 ∷ [])
  selection_to_bytes (some a) = Descriptors.to_bytes ranges a >>= λ bytes. ok (1 ∷ bytes)

  unfoldable pub to_bytes : CosemAttributeWithSelection RangeDescriptor → Result (List ℕ)
  to_bytes c = do
    attribute ← Method.to_bytes c.attribute
    selection ← selection_to_bytes c.access_selection
    ok (attribute ++ selection)

  unfoldable pub selection_from_bytes :
      Bool → List ℕ → Result (Option (AccessDescriptor RangeDescriptor))
  selection_from_bytes true input = Descriptors.from_bytes ranges input >>= λ a. ok (some a)
  selection_from_bytes false input = ok none

  unfoldable pub from_bytes : List ℕ → Result (CosemAttributeWithSelection RangeDescriptor)
  from_bytes source_bytes = do
    attribute ← Method.from_bytes (take 9 source_bytes)
    (flag, input) ← pop (drop 9 source_bytes)
    selection ← selection_from_bytes (truthy flag) input
    ok (record { attribute = attribute; access_selection = selection })

  -- An attribute that fits its bytes, as a whole.
  pub record IsWhole (c : CosemAttributeWithSelection RangeDescriptor) : Type 0 where
    pub attribute_fits : IsMethod c.attribute
    pub unselected : c.access_selection ≡ none

  abbrev pub whole_bytes : CosemAttributeWithSelection RangeDescriptor → List ℕ
  whole_bytes c = method_bytes c.attribute ++ (0 ∷ [])

  pub to_bytes_lem :
      (c : CosemAttributeWithSelection RangeDescriptor)
      → IsWhole c
      → to_bytes c ≡ ok (whole_bytes c)
  unfolding to_bytes selection_to_bytes
  to_bytes_lem c h = rw (Method.to_bytes_lem c.attribute h.attribute_fits) (rw h.unselected refl)

  abbrev the_whole : CosemAttribute → CosemAttributeWithSelection RangeDescriptor
  the_whole m = record { attribute = m; access_selection = none }

  whole_lem :
      (c : CosemAttributeWithSelection RangeDescriptor)
      → c.access_selection ≡ none
      → the_whole c.attribute ≡ c
  whole_lem c u = cc

  pub from_bytes_lem :
      (c : CosemAttributeWithSelection RangeDescriptor)
      → IsWhole c
      → (rest : List ℕ) → from_bytes (whole_bytes c ++ rest) ≡ ok c
  unfolding from_bytes selection_from_bytes
  from_bytes_lem c h rest =
      rw (Method.from_bytes_lem c.attribute) (rw (whole_lem c h.unselected) refl)

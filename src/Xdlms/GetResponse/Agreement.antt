-- ===== src/Xdlms/GetResponse/Agreement.antt =====
-- The two readers of responses in dlms_cosem/protocol/xdlms/get.py: the factory and the classes.
use dlms_cosem.Prelude.{ℕ, ◌≡◌, ◌⊎◌, arith, Option, some, List, inl, inr, Result, ok}
use dlms_cosem.Xdlms.GetResponse.Defs.{
  GetResponse, from_bytes, by_type, normal_from_bytes, block_from_bytes,
}
use dlms_cosem.Xdlms.GetResponse.Classes.{
  normal_class, block_class, last_block_class, last_error_class,
}

module _ (with_list_from_bytes : List ℕ → Result (Option GetResponse)) where
  normal_class_agrees :
      (bs : List ℕ) (g : GetResponse)
      → normal_class bs ≡ ok g
      → from_bytes with_list_from_bytes bs ≡ ok (some g)
  unfolding normal_class from_bytes by_type normal_from_bytes
  normal_class_agrees bs g h = ground arith

  block_class_agrees :
      (bs : List ℕ) (g : GetResponse)
      → block_class bs ≡ ok g
      → from_bytes with_list_from_bytes bs ≡ ok (some g)
  unfolding block_class from_bytes by_type block_from_bytes
  block_class_agrees bs g h = ground arith

  last_block_class_agrees :
      (bs : List ℕ) (g : GetResponse)
      → last_block_class bs ≡ ok g
      → from_bytes with_list_from_bytes bs ≡ ok (some g)
  unfolding last_block_class from_bytes by_type block_from_bytes
  last_block_class_agrees bs g h = ground arith

  last_error_class_agrees :
      (bs : List ℕ) (g : GetResponse)
      → last_error_class bs ≡ ok g
      → from_bytes with_list_from_bytes bs ≡ ok (some g)
  unfolding last_error_class from_bytes by_type block_from_bytes
  last_error_class_agrees bs g h = ground arith

  -- What the class method of GetResponseNormal, GetResponseWithBlock, GetResponseLastBlock or
  -- GetResponseLastBlockWithError reads from a byte string, the factory reads from it too.
  pub factory_agrees :
      (bs : List ℕ) (g : GetResponse)
      → ((normal_class bs ≡ ok g) ⊎ (block_class bs ≡ ok g))
        ⊎ ((last_block_class bs ≡ ok g) ⊎ (last_error_class bs ≡ ok g))
      → from_bytes with_list_from_bytes bs ≡ ok (some g)
  factory_agrees bs g (inl (inl h)) = normal_class_agrees bs g h
  factory_agrees bs g (inl (inr h)) = block_class_agrees bs g h
  factory_agrees bs g (inr (inl h)) = last_block_class_agrees bs g h
  factory_agrees bs g (inr (inr h)) = last_error_class_agrees bs g h

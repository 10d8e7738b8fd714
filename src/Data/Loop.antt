-- ===== src/Data/Loop.antt =====
-- The loop of DlmsDataParser.parse (dlms_cosem/dlms_data.py), without a limit.
use dlms_cosem.Prelude.{
  ℕ, zero, suc, ◌+◌, ◌≤◌, ◌<◌, ◌≡◌, ◌≢◌, refl, sym, ap, ◌∙◌, arith, none, some, List, [], ◌∷◌, ◌++◌,
  append_assoc, append-nil, length, length-append, drop, ok, >>=-eq-ok,
}
use dlms_cosem.Data.VariableInteger.{short}
use dlms_cosem.Data.Types.{
  DlmsData, scalar, null_data, octet_string_data, data_array, data_structure, Items, nil, cons,
  count, octet_string, tag, length_of, get_data_class,
}
use dlms_cosem.Data.Conversion.{
  ValueCodec, class_from_bytes, scalar_to_bytes, to_bytes, items_to_bytes,
}
use dlms_cosem.Data.Parser.{
  get_bytes, read_value, sized, decode_data, decode_class, parse_one_entry, parse_loop, parse,
}
use dlms_cosem.Data.Cursor.{after_bytes, get_bytes-past, decode_length-at}
use dlms_cosem.Data.RoundTrip.{items_height, ItemsWellFormed, entry-read}
use dlms_cosem.Data.Entry.{entry-step, entry-tag}

module _ {Value : Type 0} (codec : ValueCodec Value) where
  loop_end :
      (depth rounds : ℕ) (buffer : List ℕ) (p : ℕ) (es : List (DlmsData Value))
      → p ≡ length buffer
      → parse_loop codec depth (suc rounds) buffer none p es ≡ some (ok es)
  unfolding parse_loop
  loop_end depth rounds buffer p es e = ground arith

  loop_step :
      (depth rounds : ℕ) (buffer : List ℕ) (p q : ℕ) (d : DlmsData Value)
      (es : List (DlmsData Value))
      → p ≢ length buffer
      → parse_one_entry codec depth buffer p ≡ ok (d, q)
      → parse_loop codec depth (suc rounds) buffer none p es
        ≡ parse_loop codec depth rounds buffer none q (es ++ (d ∷ []))
  unfolding parse_loop
  loop_step depth rounds buffer p q d es e one = rw one (ground arith)

  unfoldable pub entries : Items Value → List (DlmsData Value)
  entries nil = []
  entries (cons d ds) = d ∷ entries ds

  not_empty : (d : DlmsData Value) (bytes : List ℕ) → to_bytes codec d ≡ ok bytes → 0 < length bytes
  unfolding to_bytes scalar_to_bytes
  not_empty (scalar s) bytes e = ground arith
  not_empty (data_array items) bytes e = ground arith
  not_empty (data_structure items) bytes e = ground arith

  loop_lem :
      (ds : Items Value) (depth rounds : ℕ) (buffer : List ℕ) (p : ℕ) (es : List (DlmsData Value))
      (bytes : List ℕ)
      → ItemsWellFormed codec ds
      → items_height codec ds ≤ depth
      → count ds < rounds
      → items_to_bytes codec ds ≡ ok bytes
      → drop p buffer ≡ bytes
      → p + length bytes ≡ length buffer
      → parse_loop codec depth rounds buffer none p es ≡ some (ok (es ++ entries ds))
  unfolding entries items_height ItemsWellFormed items_to_bytes
  loop_lem ds depth zero buffer p es bytes w h r e here last = absurd (omega arith)
  loop_lem nil depth (suc rounds) buffer p es bytes w h r e here last =
      let same : [] ≡ bytes = ground arith in
      loop_end depth rounds buffer p es (omega (arith, ap length same))
      ∙ ap (λ t. some (ok t)) (sym (append-nil es))
  loop_lem (cons d ds) depth (suc rounds) buffer p es bytes (w, ws) h r e here last =
      let (first, e1, e2) = >>=-eq-ok (to_bytes codec d) _ e in
      let (others, e3, e4) = >>=-eq-ok (items_to_bytes codec ds) _ e2 in
      let same : first ++ others ≡ bytes = ground arith in
      let here' : drop p buffer ≡ first ++ others = here ∙ sym same in
      let some_bytes : 0 < length first = not_empty d first e1 in
      let total : length first + length others ≡ length bytes =
        sym (length-append first others) ∙ ap length same in
      loop_step depth rounds buffer p (p + length first) d es (omega arith)
        (entry-read codec d depth buffer p first others w (omega arith) e1 here')
      ∙ loop_lem ds depth rounds buffer (p + length first) (es ++ (d ∷ [])) others ws (omega arith)
          (omega arith) e3 (after_bytes buffer p (length first) first others here' refl)
          (omega arith)
      ∙ ap (λ t. some (ok t)) (append_assoc es (d ∷ []) (entries ds))

  -- Any sequence of well-formed entries that are written one after the other is parsed as these
  -- entries, in order: the loop ends, after one round more than there are entries, where the stack
  -- is as deep as they are high.
  pub parse-to_bytes :
      (ds : Items Value) (depth rounds : ℕ) (bytes : List ℕ)
      → ItemsWellFormed codec ds
      → items_height codec ds ≤ depth
      → count ds < rounds
      → items_to_bytes codec ds ≡ ok bytes
      → parse codec depth rounds bytes none ≡ some (ok (entries ds))
  unfolding parse
  parse-to_bytes ds depth rounds bytes w h r e =
      loop_lem ds depth rounds bytes 0 [] bytes w h r e refl (omega arith)

  past_entry :
      (depth : ℕ) (buffer : List ℕ) (p : ℕ)
      → length buffer ≤ p
      → parse_one_entry codec (suc depth) buffer p ≡ ok (scalar null_data, p + 1 + 0)
  unfolding decode_class decode_data sized read_value class_from_bytes length_of get_data_class
  past_entry depth buffer p past =
      entry-step codec depth buffer p
      ∙ rw (get_bytes-past buffer p 1 past)
          (rw (get_bytes-past buffer (p + 1) 0 (omega arith)) refl)

  ended :
      (depth : ℕ) (buffer : List ℕ) (p : ℕ) (es : List (DlmsData Value))
      → parse_loop codec (suc depth) 0 buffer none p es ≡ none
  unfolding parse_loop
  ended depth buffer p es = refl

  past_loop :
      (depth rounds : ℕ) (buffer : List ℕ) (p : ℕ) (es : List (DlmsData Value))
      → length buffer < p
      → parse_loop codec (suc depth) rounds buffer none p es ≡ none
  past_loop depth zero buffer p es past = ended depth buffer p es
  past_loop depth (suc rounds) buffer p es past =
      loop_step (suc depth) rounds buffer p (p + 1 + 0) (scalar null_data) es (omega arith)
        (past_entry depth buffer p (omega arith))
      ∙ past_loop depth rounds buffer (p + 1 + 0) (es ++ (scalar null_data ∷ [])) (omega arith)

  -- An octet string whose data ends too early is read as what there is, and the pointer moves on by
  -- the length that was announced.
  cut_entry :
      (n : ℕ) (text : List ℕ) (depth : ℕ)
      → n < 128
      → (part : List ℕ) × (parse_one_entry codec (suc depth) (tag octet_string ∷ n ∷ text) 0
          ≡ ok (scalar (octet_string_data part), 0 + 1 + 1 + n))
  unfolding decode_class decode_data sized read_value class_from_bytes length_of get_bytes
  cut_entry n text depth small =
      let buffer = tag octet_string ∷ n ∷ text in
      (
        (get_bytes buffer (0 + 1 + 1) n).0,
        entry-tag codec depth buffer 0 octet_string (n ∷ text) [] (sym (append-nil buffer))
            ∙ rw (decode_length-at buffer n (0 + 1) (n ∷ []) text (short small) refl) refl,
      )

  -- An octet string that ends too early is never done with: whatever the number of rounds, the loop
  -- of `parse` still runs, where the length is below 128 and there is no limit.
  pub parse-truncated :
      (n : ℕ) (text : List ℕ) (depth rounds : ℕ)
      → n < 128
      → length text < n
      → parse codec (suc depth) rounds (tag octet_string ∷ n ∷ text) none ≡ none
  unfolding parse
  parse-truncated n text depth zero small cut = ended depth (tag octet_string ∷ n ∷ text) 0 []
  parse-truncated n text depth (suc rounds) small cut =
      let buffer : List ℕ = tag octet_string ∷ n ∷ text in
      let (part, read) = cut_entry n text depth small in
      loop_step (suc depth) rounds buffer 0 (0 + 1 + 1 + n) (scalar (octet_string_data part)) []
        (omega arith) read
      ∙ past_loop depth rounds buffer (0 + 1 + 1 + n) ([] ++ (scalar (octet_string_data part) ∷ []))
          (omega arith)

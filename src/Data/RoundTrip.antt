-- ===== src/Data/RoundTrip.antt =====
-- What `to_bytes` of dlms_cosem/dlms_data.py writes, and DlmsDataParser.
use dlms_cosem.Prelude.{
  ℕ, zero, suc, ◌+◌, ◌^◌, ◌≤◌, ◌<◌, ◌≡◌, refl, sym, ap, ◌∙◌, arith, List, [], ◌∷◌, ◌++◌,
  append_assoc, length, length-append, drop, Result, ok, ◌>>=◌, >>=-eq-ok,
}
use mathlib.Core.Path.{subst}
use Prim.Native.Nat.{max}
use dlms_cosem.Data.VariableInteger.{encode_variable_integer, Shape, encode-Shape}
use dlms_cosem.Data.Types.{
  DlmsData, scalar, data_array, data_structure, Items, nil, cons, count, DataClass, array,
  structure, tag,
}
use dlms_cosem.Data.Conversion.{ValueCodec, to_bytes, items_to_bytes}
use dlms_cosem.Data.Parser.{decode_items, decode_container, decode_class, parse_one_entry}
use dlms_cosem.Data.Cursor.{after_bytes, decode_length-at}
use dlms_cosem.Data.Values.{Readable}
use dlms_cosem.Data.Entry.{entry-tag, scalar-read}

module _ {Value : Type 0} (codec : ValueCodec Value) where
  -- An array's or structure's length, and what reads its items.
  container-read :
      (parse_one : ℕ → Result (DlmsData Value × ℕ)) (build : Items Value → DlmsData Value)
      (buffer : List ℕ) (p : ℕ) (items : Items Value) (lb ib rest : List ℕ)
      → Shape (count items) lb
      → drop p buffer ≡ (lb ++ ib) ++ rest
      → decode_items codec parse_one (count items) (p + length lb)
        ≡ ok (items, p + length lb + length ib)
      → decode_container codec parse_one build buffer p ≡ ok (build items, p + length (lb ++ ib))
  unfolding decode_container
  container-read parse_one build buffer p items lb ib rest shape here read =
      rw
        (decode_length-at buffer (count items) p lb (ib ++ rest) shape
          (here ∙ append_assoc lb ib rest))
        (rw read (
          let len : p + length lb + length ib ≡ p + length (lb ++ ib) =
            omega (arith, length-append lb ib) in
          λ i. ok (build items, len i)))

  -- The depth of the stack that an entry takes.
  unfoldable mutual
    pub height : DlmsData Value → ℕ
    height (scalar s) = 1
    height (data_array items) = suc (items_height items)
    height (data_structure items) = suc (items_height items)

    pub items_height : Items Value → ℕ
    items_height nil = 0
    items_height (cons d ds) = max (height d) (items_height ds)

  -- Every value can be read back, and every number of items be written.
  unfoldable mutual
    pub WellFormed : DlmsData Value → Type 0
    WellFormed (scalar s) = Readable codec s
    WellFormed (data_array items) = (count items < 256 ^ 127) × ItemsWellFormed items
    WellFormed (data_structure items) = (count items < 256 ^ 127) × ItemsWellFormed items

    pub ItemsWellFormed : Items Value → Type 0
    ItemsWellFormed nil = Unit {0}
    ItemsWellFormed (cons d ds) = WellFormed d × ItemsWellFormed ds

  -- The two containers, which differ in the tag and the constructor.
  tagged-read :
      (k : DataClass) (build : Items Value → DlmsData Value) (items : Items Value) (depth : ℕ)
      (buffer : List ℕ) (p : ℕ) (bytes rest : List ℕ)
      → ((parse_one : ℕ → Result (DlmsData Value × ℕ)) (q : ℕ)
          → decode_class codec parse_one buffer q k
            ≡ decode_container codec parse_one build buffer q)
      → count items < 256 ^ 127
      → ((encode_variable_integer (count items)) >>= λ lb.
          items_to_bytes codec items >>= λ ib. ok (tag k ∷ (lb ++ ib)))
        ≡ ok bytes
      → drop p buffer ≡ bytes ++ rest
      → ((q : ℕ) (ib : List ℕ)
          → items_to_bytes codec items ≡ ok ib
          → drop q buffer ≡ ib ++ rest
          → decode_items codec (parse_one_entry codec depth buffer) (count items) q
            ≡ ok (items, q + length ib))
      → parse_one_entry codec (suc depth) buffer p ≡ ok (build items, p + length bytes)
  tagged-read k build items depth buffer p bytes rest by_class few e here read_items =
      let (lb, e1, e2) = >>=-eq-ok (encode_variable_integer (count items)) _ e in
      let (ib, e3, e4) = >>=-eq-ok (items_to_bytes codec items) _ e2 in
      let (lb', e5, shape) = encode-Shape (count items) few in
      let same_length : lb' ≡ lb = ground arith in
      let same : tag k ∷ (lb ++ ib) ≡ bytes = ground arith in
      let here' : drop p buffer ≡ (tag k ∷ (lb ++ ib)) ++ rest =
        here ∙ ap (λ t. t ++ rest) (sym same) in
      let behind : drop (p + 1) buffer ≡ (lb ++ ib) ++ rest =
        after_bytes buffer p 1 (tag k ∷ []) ((lb ++ ib) ++ rest) here' refl in
      let at_items : drop (p + 1 + length lb) buffer ≡ ib ++ rest =
        after_bytes buffer (p + 1) (length lb) lb (ib ++ rest) (behind ∙ append_assoc lb ib rest)
          refl in
      entry-tag codec depth buffer p k (lb ++ ib) rest here'
      ∙ by_class (parse_one_entry codec depth buffer) (p + 1)
      ∙ container-read (parse_one_entry codec depth buffer) build buffer (p + 1) items lb ib rest
          (subst (λ (t : List ℕ). Shape (count items) t) same_length shape) behind
          (read_items (p + 1 + length lb) ib e3 at_items)
      ∙ (let len : p + 1 + length (lb ++ ib) ≡ p + length bytes = omega (arith, ap length same) in
          λ i. ok (build items, len i))

  array_class :
      (buffer : List ℕ) (parse_one : ℕ → Result (DlmsData Value × ℕ)) (q : ℕ)
      → decode_class codec parse_one buffer q array
        ≡ decode_container codec parse_one data_array buffer q
  unfolding decode_class
  array_class buffer parse_one q = refl

  structure_class :
      (buffer : List ℕ) (parse_one : ℕ → Result (DlmsData Value × ℕ)) (q : ℕ)
      → decode_class codec parse_one buffer q structure
        ≡ decode_container codec parse_one data_structure buffer q
  unfolding decode_class
  structure_class buffer parse_one q = refl

  no_items :
      (parse_one : ℕ → Result (DlmsData Value × ℕ)) (q q' : ℕ)
      → q ≡ q'
      → decode_items codec parse_one 0 q ≡ ok (nil, q')
  unfolding decode_items
  no_items parse_one q q' e = λ i. ok (nil, e i)

  one_more :
      (parse_one : ℕ → Result (DlmsData Value × ℕ)) (n q q1 q2 : ℕ) (d : DlmsData Value)
      (ds : Items Value)
      → parse_one q ≡ ok (d, q1)
      → decode_items codec parse_one n q1 ≡ ok (ds, q2)
      → decode_items codec parse_one (suc n) q ≡ ok (cons d ds, q2)
  unfolding decode_items
  one_more parse_one n q q1 q2 d ds e f = rw e (rw f refl)

  mutual
    unfolding to_bytes height WellFormed

    pub entry-read :
        (d : DlmsData Value) (depth : ℕ) (buffer : List ℕ) (p : ℕ) (bytes rest : List ℕ)
        → WellFormed d
        → height d ≤ depth
        → to_bytes codec d ≡ ok bytes
        → drop p buffer ≡ bytes ++ rest
        → parse_one_entry codec depth buffer p ≡ ok (d, p + length bytes)
    entry-read (scalar s) zero buffer p bytes rest w h e here = absurd (omega arith)
    entry-read (scalar s) (suc depth) buffer p bytes rest w h e here =
        scalar-read codec s depth buffer p bytes rest w e here
    entry-read (data_array items) zero buffer p bytes rest w h e here = absurd (omega arith)
    entry-read (data_array items) (suc depth) buffer p bytes rest (few, w) h e here =
        tagged-read array data_array items depth buffer p bytes rest (array_class buffer) few e here
          (λ q ib. items-read items depth buffer q ib rest w (omega arith))
    entry-read (data_structure items) zero buffer p bytes rest w h e here = absurd (omega arith)
    entry-read (data_structure items) (suc depth) buffer p bytes rest (few, w) h e here =
        tagged-read structure data_structure items depth buffer p bytes rest
          (structure_class buffer) few e here
          (λ q ib. items-read items depth buffer q ib rest w (omega arith))

    items-read :
        (items : Items Value) (depth : ℕ) (buffer : List ℕ) (q : ℕ) (ib rest : List ℕ)
        → ItemsWellFormed items
        → items_height items ≤ depth
        → items_to_bytes codec items ≡ ok ib
        → drop q buffer ≡ ib ++ rest
        → decode_items codec (parse_one_entry codec depth buffer) (count items) q
          ≡ ok (items, q + length ib)
    items-read nil depth buffer q ib rest w h e here =
        let same : [] ≡ ib = ground arith in
        no_items (parse_one_entry codec depth buffer) q (q + length ib)
          (omega (arith, ap length same))
    items-read (cons d ds) depth buffer q ib rest (w, ws) h e here =
        let (first, e1, e2) = >>=-eq-ok (to_bytes codec d) _ e in
        let (others, e3, e4) = >>=-eq-ok (items_to_bytes codec ds) _ e2 in
        let same : first ++ others ≡ ib = ground arith in
        let here' : drop q buffer ≡ first ++ (others ++ rest) =
          here ∙ ap (λ t. t ++ rest) (sym same) ∙ append_assoc first others rest in
        let last : q + length first + length others ≡ q + length ib =
          omega (arith, length-append first others, ap length same) in
        one_more (parse_one_entry codec depth buffer) (count ds) q (q + length first)
          (q + length ib) d ds
          (entry-read d depth buffer q first (others ++ rest) w (omega arith) e1 here')
          (items-read ds depth buffer (q + length first) others rest ws (omega arith) e3
              (after_bytes buffer q (length first) first (others ++ rest) here' refl)
            ∙ (λ i. ok (ds, last i)))

  -- A well-formed entry that `to_bytes` writes is read by the parser, wherever it stands in the
  -- buffer and whatever follows it, as that entry, and the pointer stops right behind it, where the
  -- stack is as deep as the entry is high.
  pub parse_one_entry-to_bytes :
      (d : DlmsData Value) (depth : ℕ) (buffer : List ℕ) (pointer : ℕ) (bytes rest : List ℕ)
      → WellFormed d
      → height d ≤ depth
      → to_bytes codec d ≡ ok bytes
      → drop pointer buffer ≡ bytes ++ rest
      → parse_one_entry codec depth buffer pointer ≡ ok (d, pointer + length bytes)
  parse_one_entry-to_bytes = entry-read

-- ===== src/Web/Csv/Cells.antt =====
-- crates/web/src/csv.rs: what one encoded cell is read back as.
use rsntr.Base.{
  ℕ, zero, suc, ◌+◌, ◌-◌, ◌/◌, ◌%◌, ◌<◌, ◌≤◌, ◌≡◌, ◌≢◌, inl, inr, refl, ap, ◌∙◌, Bool, true, false,
  some, List, [], ◌∷◌, ◌++◌, arith, ltb, ◌==◌, length, take, drop, all, any, All, Str, hex,
  hex_byte, hex_digit, Bool-cases, length-append,
}
use rsntr.Protocol.Envelope.{ℤ, pos, negsuc}
use rsntr.Authenticator.Clock.{decimal, decimal_up_to}
use rsntr.Web.Csv.{
  Value, null, integer, real, text, blob, blob_ref, comma, double_quote, apostrophe, cr, lf,
  is_ascii_hexdigit, strip_apostrophe, strip_blob, is_blob_lexical, needs_quote, integer_text,
  blob_ref_text, hex_value, unhex, field_value,
}

-- A character that the parser copies outside of quotes.
abbrev pub IsPlain : ℕ → Type 0
IsPlain c = (c ≢ comma) × (c ≢ double_quote) × (c ≢ lf) × (c ≢ cr)

hex_digit_round : (n : ℕ) → n < 16 → hex_value (hex_digit n) ≡ n
hex_digit_round n small = ground arith

hex_digit_is : (n : ℕ) → n < 16 → is_ascii_hexdigit (hex_digit n) ≡ true
hex_digit_is n small = ground arith

unhex-hex : (bytes : List ℕ) → All (λ b. b < 256) bytes → unhex (hex bytes) ≡ bytes
unfolding unhex hex hex_byte
unhex-hex [] small = refl
unhex-hex (b ∷ bytes) (byte, small) =
    rw
      (
        hex_digit_round (b / 16) (omega arith),
        hex_digit_round (b % 16) (omega arith),
        unhex-hex bytes small,
      )
      (ap (λ n. n ∷ bytes) (omega arith))

strip_apostrophe-append : (front : Str) → strip_apostrophe (front ++ apostrophe ∷ []) ≡ some front
unfolding strip_apostrophe
strip_apostrophe-append [] = refl
strip_apostrophe-append (c ∷ []) = refl
strip_apostrophe-append (c ∷ d ∷ cs) = rw (strip_apostrophe-append (d ∷ cs)) refl

hex-even : (bytes : List ℕ) → length (hex bytes) % 2 ≡ 0
unfolding hex hex_byte
hex-even [] = refl
hex-even (b ∷ bytes) = omega (arith, hex-even bytes)

hex-all : (bytes : List ℕ) → All (λ b. b < 256) bytes → all is_ascii_hexdigit (hex bytes) ≡ true
unfolding hex hex_byte
hex-all [] small = refl
hex-all (b ∷ bytes) (byte, small) =
    rw
      (
        hex_digit_is (b / 16) (omega arith),
        hex_digit_is (b % 16) (omega arith),
        hex-all bytes small,
      )
      refl

abbrev pub blob_literal : List ℕ → Str
blob_literal bytes = b'x' ∷ apostrophe ∷ hex bytes ++ apostrophe ∷ []

strip_blob_literal : (bytes : List ℕ) → strip_blob (blob_literal bytes) ≡ some (hex bytes)
unfolding strip_blob
strip_blob_literal bytes = strip_apostrophe-append (hex bytes)

blob_literal_is :
    (bytes : List ℕ) → All (λ b. b < 256) bytes → is_blob_lexical (blob_literal bytes) ≡ true
unfolding is_blob_lexical
blob_literal_is bytes small =
    rw (strip_blob_literal bytes, hex-even bytes, hex-all bytes small) refl

take_whole : {A : Type 0} (ys : List A) (y : A) → take (length ys) (ys ++ y ∷ []) ≡ ys
take_whole [] y = refl
take_whole (z ∷ ys) y = ap (λ zs. z ∷ zs) (take_whole ys y)

blob_digits :
    (bytes : List ℕ)
    → take (length (blob_literal bytes) - 3) (drop 2 (blob_literal bytes)) ≡ hex bytes
blob_digits bytes =
    ap (λ n. take n (hex bytes ++ apostrophe ∷ []))
      (omega (arith, length-append (hex bytes) (apostrophe ∷ [])))
    ∙ take_whole (hex bytes) apostrophe

-- A blob's literal is read as the blob.
field_value_blob :
    {Real : Type 0} (bytes : List ℕ)
    → All (λ b. b < 256) bytes
    → field_value {Real = Real} (blob_literal bytes) false ≡ blob bytes
unfolding field_value
field_value_blob bytes small = rw (blob_literal_is bytes small) (
    ap (λ digits. blob (unhex digits)) (blob_digits bytes)
    ∙ ap (λ bs. blob bs) (unhex-hex bytes small))

-- The characters `-./0123456789`
abbrev IsNumeral : ℕ → Type 0
IsNumeral c = (45 ≤ c) × (c < 58)

All-IsNumeral-append :
    (xs ys : Str) → All IsNumeral xs → All IsNumeral ys → All IsNumeral (xs ++ ys)
All-IsNumeral-append [] ys left right = right
All-IsNumeral-append (x ∷ xs) ys (one, left) right = (one, All-IsNumeral-append xs ys left right)

decimal_up_to-IsNumeral : (fuel n : ℕ) → All IsNumeral (decimal_up_to fuel n)
unfolding decimal_up_to
decimal_up_to-IsNumeral zero n = tt
decimal_up_to-IsNumeral (suc fuel) n = elim (Bool-cases (ltb n 10)) [
  | inl small ↦ rw small ((omega arith, ground arith), tt)
  | inr big ↦ rw big (
      All-IsNumeral-append (decimal_up_to fuel (n / 10)) _ (decimal_up_to-IsNumeral fuel (n / 10))
        ((omega arith, omega arith), tt))
]

any_numeral : (t : Str) (k : ℕ) → k < 45 → All IsNumeral t → any (λ c. c == k) t ≡ false
any_numeral [] k low digits = refl
any_numeral (c ∷ t) k low ((from, to), digits) = ground (arith, any_numeral t k low digits)

numeral_no_blob : (c : ℕ) (t : Str) → IsNumeral c → is_blob_lexical (c ∷ t) ≡ false
unfolding is_blob_lexical strip_blob
numeral_no_blob c [] digit = refl
numeral_no_blob c (d ∷ t) (from, to) = ground arith

numeral_plain : (c : ℕ) (t : Str) → All IsNumeral (c ∷ t) → needs_quote (c ∷ t) ≡ false
unfolding needs_quote
numeral_plain c t digits =
    rw
      (
        any_numeral (c ∷ t) comma (omega arith) digits,
        any_numeral (c ∷ t) double_quote (omega arith) digits,
        any_numeral (c ∷ t) lf (omega arith) digits,
        any_numeral (c ∷ t) cr (omega arith) digits,
      )
      (numeral_no_blob c t (digits.0))

snoc-filled : (c : ℕ) (front : Str) → front ++ c ∷ [] ≢ []
snoc-filled c [] e = absurd (cc)
snoc-filled c (x ∷ front) e = absurd (cc)

decimal-filled : (n : ℕ) → decimal n ≢ []
unfolding decimal decimal_up_to
decimal-filled n e = elim (Bool-cases (ltb n 10)) [
  | inl small ↦ absurd (ground (arith, small))
  | inr big ↦ snoc-filled (b'0' + n % 10) (decimal_up_to n (n / 10)) (ground arith)
]

filled_plain : (t : Str) → t ≢ [] → All IsNumeral t → needs_quote t ≡ false
filled_plain [] filled digits = absurd (filled refl)
filled_plain (c ∷ t) filled digits = numeral_plain c t digits

pub integer_plain : (i : ℤ) → (integer_text i ≢ []) × (needs_quote (integer_text i) ≡ false)
unfolding integer_text decimal
integer_plain (pos n) = (
  decimal-filled n,
  filled_plain (decimal n) (decimal-filled n) (decimal_up_to-IsNumeral (suc n) n),
)
integer_plain (negsuc n) = (
  (λ bad. absurd (cc)),
  numeral_plain _ (decimal (suc n))
      ((omega arith, omega arith), decimal_up_to-IsNumeral (suc (suc n)) (suc n)),
)

-- What the parser of a document finds for a cell: the content, and whether it stood in quotes.
module _ {Real : Type 0} (format_real : Real → Str) where
  abbrev pub cell : Value Real → Str × Bool
  cell null = ([], false)
  cell (integer i) = (integer_text i, false)
  cell (real f) = (format_real f, false)
  cell (blob bytes) = (blob_literal bytes, false)
  cell (blob_ref hash bytes) = (blob_ref_text hash bytes, true)
  cell (text []) = ([], true)
  cell (text (c ∷ cs)) = (c ∷ cs, needs_quote (c ∷ cs))

  -- What a value is after a way through a document: numbers and references come back as text.
  abbrev pub imported : Value Real → Value Real
  imported null = null
  imported (integer i) = text (integer_text i)
  imported (real f) = text (format_real f)
  imported (blob bytes) = blob bytes
  imported (blob_ref hash bytes) = text (blob_ref_text hash bytes)
  imported (text t) = text t

  -- The bytes of a blob are bytes, and the text of a float is not empty, needs no quotes, and is no
  -- blob's.
  abbrev pub IsStorable : Value Real → Type 0
  IsStorable (blob bytes) = All (λ b. b < 256) bytes
  IsStorable (real f) = (format_real f ≢ []) × (needs_quote (format_real f) ≡ false)
  IsStorable _ = Unit

  field_value_unquoted :
      (t : Str) → t ≢ [] → needs_quote t ≡ false → field_value {Real = Real} t false ≡ text t
  unfolding field_value needs_quote
  field_value_unquoted [] some_text plain = absurd (some_text refl)
  field_value_unquoted (c ∷ cs) some_text plain = ground arith

  pub field_value-cell :
      (v : Value Real) → IsStorable v → field_value ((cell v).0) ((cell v).1) ≡ imported v
  unfolding field_value
  field_value-cell null storable = refl
  field_value-cell (integer i) storable =
      field_value_unquoted (integer_text i) ((integer_plain i).0) ((integer_plain i).1)
  field_value-cell (real f) (filled, plain) = field_value_unquoted (format_real f) filled plain
  field_value-cell (blob bytes) storable = field_value_blob bytes storable
  field_value-cell (blob_ref hash bytes) storable = refl
  field_value-cell (text []) storable = refl
  field_value-cell (text (c ∷ cs)) storable = elim (Bool-cases (needs_quote (c ∷ cs))) [
    | inl quoted ↦ ap (λ q. field_value (c ∷ cs) q) quoted
    | inr plain ↦
        ap (λ q. field_value (c ∷ cs) q) plain
        ∙ field_value_unquoted (c ∷ cs) (λ bad. absurd (cc)) plain
  ]

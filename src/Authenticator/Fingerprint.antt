-- ===== src/Authenticator/Fingerprint.antt =====
-- crates/authenticator/src/fingerprint.rs: the shape of a statement, and the key of the cache.
pub mod Literals
pub mod Folding
use mathlib.Core.List.{reverse}
use rsntr.Base.{
  ℕ, Bool, true, false, not, ◌&&◌, ◌||◌, List, [], ◌∷◌, ◌++◌, if◌then◌else◌, ◌==◌, Str, as_bytes,
  is_ascii_digit, is_ascii_alphanumeric, to_ascii_lowercase, is_whitespace, hex,
}
use rsntr.Authenticator.Types.{Footprint, as_str}

-- The place in the loops: at the top of the outer one, in a string literal, at the second quote of
-- an escaped one, in an identifier quoted by the byte, in a number, in a run of white space.
pub data Mode : Type 0 where
  outside literal escaped number space : Mode
  quoted : ℕ → Mode

-- `out` holds the characters emitted, the last one first.
pub record Scan : Type 0 where
  pub mode : Mode
  pub in_word : Bool
  pub out : Str

abbrev pub number_byte : ℕ → Bool
number_byte b = is_ascii_alphanumeric b || b == b'.' || b == b'_'

-- what a run of white space emits
abbrev pub blank : Str → Str
blank [] = []
blank (c ∷ out) = if c == b' ' then c ∷ out else b' ' ∷ c ∷ out

-- one pass of the `match` on a byte, up to the inner loop of its arm
unfoldable pub outside_step : Bool → Str → ℕ → Scan
unfolding is_whitespace
outside_step in_word out c =
    if c == b'\''
    then record { mode = literal; in_word = in_word; out = out }
    else if c == b'"' || c == b'`'
    then record { mode = quoted c; in_word = in_word; out = c ∷ out }
    else if is_ascii_digit c && not in_word
    then record { mode = number; in_word = in_word; out = out }
    else if is_whitespace c
    then record { mode = space; in_word = in_word; out = blank out }
    else record {
      mode = outside;
      in_word = is_ascii_alphanumeric c || c == b'_';
      out = to_ascii_lowercase c ∷ out;
    }

-- `bytes.get(i + 1) == Some(&b'\'')`
abbrev pub quote_next : List ℕ → Bool
quote_next [] = false
quote_next (b ∷ bs) = b == b'\''

-- One byte, with the bytes behind it in view.
unfoldable pub step_in : Mode → Scan → ℕ → List ℕ → Scan
unfolding outside_step
step_in outside s c rest = outside_step s.in_word s.out c
step_in literal s c rest =
    if c == b'\''
    then (if quote_next rest
        then record s { mode = escaped }
        else record { mode = outside; in_word = false; out = b'?' ∷ s.out })
    else s
step_in escaped s c rest = record s { mode = literal }
step_in (quoted q) s c rest =
    if c == q
    then record { mode = outside; in_word = true; out = to_ascii_lowercase c ∷ s.out }
    else record s { out = to_ascii_lowercase c ∷ s.out }
step_in number s c rest = if number_byte c then s else outside_step false (b'?' ∷ s.out) c
step_in space s c rest = if is_whitespace c then s else outside_step false s.out c

-- The characters emitted when the bytes end.
unfoldable pub finish : Mode → Str → Str
finish literal out = b'?' ∷ out
finish escaped out = b'?' ∷ out
finish number out = b'?' ∷ out
finish _ out = out

unfoldable pub scan : Scan → List ℕ → Str
unfolding step_in finish
scan s [] = finish s.mode s.out
scan s (b ∷ bs) = scan (step_in s.mode s b bs) bs

-- `while out.ends_with(' ') || out.ends_with(';') { out.pop(); }`
unfoldable pub pop_tail : Str → Str
pop_tail [] = []
pop_tail (c ∷ out) = if c == b' ' || c == b';' then pop_tail out else c ∷ out

abbrev pub start : Scan
start = record { mode = outside; in_word = false; out = [] }

unfoldable pub normalize_bytes : List ℕ → Str
unfolding scan pop_tail
normalize_bytes bytes = reverse (pop_tail (scan start bytes))

unfoldable pub normalize_statement : Str → Str
unfolding normalize_bytes
normalize_statement statement = normalize_bytes (as_bytes statement)

column_bytes : List Str → List ℕ
column_bytes [] = []
column_bytes (col ∷ cols) = 1 ∷ as_bytes col ++ column_bytes cols

table_bytes : List (Str × List Str) → List ℕ
table_bytes [] = []
table_bytes ((table, cols) ∷ tables) = 0 ∷ as_bytes table ++ column_bytes cols ++ table_bytes tables

-- What the hasher is fed.
unfoldable pub fingerprint_bytes : Str → Str → Footprint → List ℕ
unfolding table_bytes column_bytes
fingerprint_bytes action statement footprint =
    as_bytes action
    ++ 0 ∷ as_bytes (normalize_statement statement)
    ++ 0 ∷ as_bytes (as_str footprint.kind)
    ++ table_bytes footprint.tables

-- `sha256` stands for the digest of crate sha2.
unfoldable pub statement_fingerprint : (List ℕ → List ℕ) → Str → Str → Footprint → Str
unfolding fingerprint_bytes
statement_fingerprint sha256 action statement footprint =
    hex (sha256 (fingerprint_bytes action statement footprint))

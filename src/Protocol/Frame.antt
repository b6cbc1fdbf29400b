-- ===== src/Protocol/Frame.antt =====
-- crates/protocol/src/frame.rs: the length-prefixed frames. A byte is a number below 256; the text
-- of a frame is kept as its UTF-8 bytes, which is what a Rust `String` holds. A buffer is what is
-- left of the `BytesMut`.
pub mod Stream
use rsntr.Base.{
  ℕ, suc, ◌+◌, ◌*◌, ◌/◌, ◌%◌, Bool, true, false, ◌&&◌, ◌||◌, Option, none, some, List, [], ◌∷◌,
  ◌++◌, if◌then◌else◌, ltb, leb, ◌==◌, length, take, drop,
}

pub data FrameError : Type 0 where
  frame_too_large truncated_frame : ℕ → FrameError
  invalid_utf8 : FrameError

pub data FrameResult {ℓ} (A : Type ℓ) : Type ℓ where
  ok : A → FrameResult A
  err : FrameError → FrameResult A

abbrev pub max_frame_len : ℕ
max_frame_len = 256 * 1024

-- `put_u32_le(len as u32)`
abbrev pub u32_le_bytes : ℕ → List ℕ
u32_le_bytes n = (n % 256) ∷ (n / 256 % 256) ∷ (n / 65536 % 256) ∷ (n / 16777216 % 256) ∷ []

unfoldable pub encode_frame : List ℕ → List ℕ → FrameResult (Unit {0}) × List ℕ
encode_frame payload dst =
    if ltb max_frame_len (length payload)
    then (err (frame_too_large (length payload)), dst)
    else (ok tt, dst ++ u32_le_bytes (length payload) ++ payload)

-- `String::from_utf8`: the well-formed byte sequences of the Unicode standard, table 3-7.
abbrev pub is_tail : ℕ → Bool
is_tail b = leb 0x80 b && ltb b 0xc0

abbrev pub is_pair : ℕ → ℕ → Bool
is_pair b c = leb 0xc2 b && ltb b 0xe0 && is_tail c

abbrev pub is_triple : ℕ → ℕ → ℕ → Bool
is_triple b c d =
    is_tail d
    && ((b == 0xe0 && leb 0xa0 c && ltb c 0xc0)
        || (leb 0xe1 b && ltb b 0xed && is_tail c)
        || (b == 0xed && leb 0x80 c && ltb c 0xa0)
        || (leb 0xee b && ltb b 0xf0 && is_tail c))

abbrev pub is_quadruple : ℕ → ℕ → ℕ → ℕ → Bool
is_quadruple b c d e =
    is_tail d
    && is_tail e
    && ((b == 0xf0 && leb 0x90 c && ltb c 0xc0)
        || (leb 0xf1 b && ltb b 0xf4 && is_tail c)
        || (b == 0xf4 && leb 0x80 c && ltb c 0x90))

unfoldable pub is_utf8 : List ℕ → Bool
is_utf8 [] = true
is_utf8 (b ∷ []) = ltb b 0x80
is_utf8 (b ∷ c ∷ []) = let one = is_utf8 (c ∷ []) in if ltb b 0x80 then one else is_pair b c
is_utf8 (b ∷ c ∷ d ∷ []) =
    let one = is_utf8 (c ∷ d ∷ []) in
    let two = is_utf8 (d ∷ []) in
    if ltb b 0x80 then one else if is_pair b c then two else is_triple b c d
is_utf8 (b ∷ c ∷ d ∷ e ∷ rest) =
    let one = is_utf8 (c ∷ d ∷ e ∷ rest) in
    let two = is_utf8 (d ∷ e ∷ rest) in
    let three = is_utf8 (e ∷ rest) in
    let four = is_utf8 rest in
    if ltb b 0x80
    then one
    else if is_pair b c
    then two
    else if is_triple b c d
    then three
    else is_quadruple b c d e && four

-- The part behind the length prefix; `src` is the whole buffer.
unfoldable pub decode_payload : ℕ → List ℕ → List ℕ → FrameResult (Option (List ℕ)) × List ℕ
unfolding is_utf8
decode_payload len body src =
    if ltb max_frame_len len
    then (err (frame_too_large len), src)
    else if ltb (length body) len
    then (ok none, src)
    else if is_utf8 (take len body)
    then (ok (some (take len body)), drop len body)
    else (err invalid_utf8, drop len body)

unfoldable pub decode_frame : List ℕ → FrameResult (Option (List ℕ)) × List ℕ
unfolding decode_payload
decode_frame (a ∷ b ∷ c ∷ d ∷ body) =
    decode_payload (a + 256 * b + 65536 * c + 16777216 * d) body (a ∷ b ∷ c ∷ d ∷ body)
decode_frame src = (ok none, src)

-- At the end of the stream, what is left of the buffer must be nothing.
abbrev pub at_eof : FrameResult (Option (List ℕ)) × List ℕ → FrameResult (Option (List ℕ)) × List ℕ
at_eof (ok (some payload), rest) = (ok (some payload), rest)
at_eof (ok none, []) = (ok none, [])
at_eof (ok none, b ∷ rest) = (err (truncated_frame (length (b ∷ rest))), b ∷ rest)
at_eof (err e, rest) = (err e, rest)

unfoldable pub decode_frame_eof : List ℕ → FrameResult (Option (List ℕ)) × List ℕ
unfolding decode_frame
decode_frame_eof src = at_eof (decode_frame src)

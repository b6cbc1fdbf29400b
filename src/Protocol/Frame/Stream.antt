-- ===== src/Protocol/Frame/Stream.antt =====
-- crates/protocol/src/frame.rs: what is written as frames is read back, however the bytes arrive.
use rsntr.Base.{
  ℕ, zero, suc, ◌+◌, ◌*◌, ◌/◌, ◌%◌, ◌≤◌, ◌<◌, ◌≡◌, refl, sym, subst, ◌∙◌, ap, true, false, none,
  some, List, [], ◌∷◌, ◌++◌, ltb, length, take, drop, arith, length-append, All,
}
use rsntr.Protocol.Frame.{
  FrameResult, ok, err, truncated_frame, at_eof, max_frame_len, u32_le_bytes, encode_frame, is_utf8,
  decode_payload, decode_frame, decode_frame_eof,
}

take-append_length : {A : Type 0} (xs ys : List A) → take (length xs) (xs ++ ys) ≡ xs
take-append_length [] ys = refl
take-append_length (x ∷ xs) ys = ap (λ zs. x ∷ zs) (take-append_length xs ys)

drop-append_length : {A : Type 0} (xs ys : List A) → drop (length xs) (xs ++ ys) ≡ ys
drop-append_length [] ys = refl
drop-append_length (x ∷ xs) ys = drop-append_length xs ys

u32_le_round :
    (n : ℕ)
    → n ≤ max_frame_len
    → n % 256 + 256 * (n / 256 % 256) + 65536 * (n / 65536 % 256) + 16777216 * (n / 16777216 % 256)
      ≡ n
u32_le_round n small = omega arith

ltb-false : (a b : ℕ) → b ≤ a → ltb a b ≡ false
ltb-false a b le = ground arith

decode_payload_fits :
    (len : ℕ) (body src : List ℕ)
    → len ≤ max_frame_len
    → len ≤ length body
    → is_utf8 (take len body) ≡ true
    → decode_payload len body src ≡ (ok (some (take len body)), drop len body)
unfolding decode_payload
decode_payload_fits len body src small whole valid =
    rw (ltb-false max_frame_len len small, ltb-false (length body) len whole, valid) refl

decode_payload_waits :
    (len : ℕ) (body src : List ℕ)
    → len ≤ max_frame_len
    → length body < len
    → decode_payload len body src ≡ (ok none, src)
unfolding decode_payload
decode_payload_waits len body src small short = ground arith

encode_small :
    (payload dst : List ℕ)
    → length payload ≤ max_frame_len
    → encode_frame payload dst ≡ (ok tt, dst ++ u32_le_bytes (length payload) ++ payload)
unfolding encode_frame
encode_small payload dst small = rw (ltb-false max_frame_len (length payload) small) refl

decode_prefixed :
    (len : ℕ) (body : List ℕ)
    → len ≤ max_frame_len
    → decode_frame (u32_le_bytes len ++ body) ≡ decode_payload len body (u32_le_bytes len ++ body)
unfolding decode_frame
decode_prefixed len body small =
    ap (λ n. decode_payload n body (u32_le_bytes len ++ body)) (u32_le_round len small)

-- A payload of valid UTF-8 within the budget, written as a frame, is what the reader of the buffer
-- gets, and the bytes that follow the frame stay in the buffer.
pub decode_frame-encode_frame :
    (payload rest : List ℕ)
    → length payload ≤ max_frame_len
    → is_utf8 payload ≡ true
    → decode_frame ((encode_frame payload []).1 ++ rest) ≡ (ok (some payload), rest)
decode_frame-encode_frame payload rest small valid =
    ap (λ step. decode_frame (step.1 ++ rest)) (encode_small payload [] small)
    ∙ decode_prefixed (length payload) (payload ++ rest) small
    ∙ decode_payload_fits (length payload) (payload ++ rest) _ small
        (omega (arith, length-append payload rest))
        (ap is_utf8 (take-append_length payload rest) ∙ valid)
    ∙ ap (λ text. (ok (some text), drop (length payload) (payload ++ rest)))
        (take-append_length payload rest)
    ∙ ap (λ left. (ok (some payload), left)) (drop-append_length payload rest)

length-take : {A : Type 0} (n : ℕ) (xs : List A) → n ≤ length xs → length (take n xs) ≡ n
length-take zero xs le = refl
length-take (suc n) [] le = omega arith
length-take (suc n) (x ∷ xs) le = ap suc (length-take n xs (omega arith))

decode_frame_prefix :
    (payload : List ℕ) (n : ℕ)
    → length payload ≤ max_frame_len
    → n < 4 + length payload
    → decode_frame (take n (u32_le_bytes (length payload) ++ payload))
      ≡ (ok none, take n (u32_le_bytes (length payload) ++ payload))
unfolding decode_frame
decode_frame_prefix payload zero small short = refl
decode_frame_prefix payload (suc zero) small short = refl
decode_frame_prefix payload (suc (suc zero)) small short = refl
decode_frame_prefix payload (suc (suc (suc zero))) small short = refl
decode_frame_prefix payload (suc (suc (suc (suc m)))) small short =
    decode_prefixed (length payload) (take m payload) small
    ∙ decode_payload_waits (length payload) (take m payload) _ small
        (omega (arith, length-take m payload (omega arith)))

at_eof-none :
    (src : List ℕ) (n : ℕ)
    → length src ≡ suc n
    → at_eof (ok none, src) ≡ (err (truncated_frame (suc n)), src)
at_eof-none [] n size = absurd (omega arith)
at_eof-none (b ∷ rest) n size = ap (λ k. (err (truncated_frame k), b ∷ rest)) size

-- A buffer that holds the first bytes of a frame, at least one and not all, yields no frame and
-- loses no byte; if the stream ends there, it is the error of a truncated frame.
pub decode_frame-take :
    (payload : List ℕ) (n : ℕ)
    → length payload ≤ max_frame_len
    → suc n < 4 + length payload
    → let part = take (suc n) ((encode_frame payload []).1) in
      (decode_frame part ≡ (ok none, part))
      × (decode_frame_eof part ≡ (err (truncated_frame (suc n)), part))
unfolding decode_frame_eof
decode_frame-take payload n small short = subst Truncated (sym (encode_small payload [] small)) (
  waits,
  ap at_eof waits ∙ at_eof-none (take (suc n) frame) n (length-take (suc n) frame (omega arith)),
)
  where
    frame : List ℕ
    frame = u32_le_bytes (length payload) ++ payload

    waits : decode_frame (take (suc n) frame) ≡ (ok none, take (suc n) frame)
    waits = decode_frame_prefix payload (suc n) small short

    Truncated : FrameResult (Unit {0}) × List ℕ → Type 0
    Truncated step =
        (decode_frame (take (suc n) (step.1)) ≡ (ok none, take (suc n) (step.1)))
        × (decode_frame_eof (take (suc n) (step.1))
            ≡ (err (truncated_frame (suc n)), take (suc n) (step.1)))

u32_le_unique :
    (a b c d : ℕ)
    → a < 256
    → b < 256
    → c < 256
    → d < 256
    → u32_le_bytes (a + 256 * b + 65536 * c + 16777216 * d) ≡ a ∷ b ∷ c ∷ d ∷ []
u32_le_unique a b c d la lb lc ld = four (omega arith) (omega arith) (omega arith) (omega arith)
  where
    four :
        {v w x y v' w' x' y' : ℕ}
        → v ≡ v'
        → w ≡ w'
        → x ≡ x'
        → y ≡ y'
        → Path (List ℕ) (v ∷ w ∷ x ∷ y ∷ []) (v' ∷ w' ∷ x' ∷ y' ∷ [])
    four e f g h = cc

take-drop : {A : Type 0} (n : ℕ) (xs : List A) → take n xs ++ drop n xs ≡ xs
take-drop zero xs = refl
take-drop (suc n) [] = refl
take-drop (suc n) (x ∷ xs) = ap (λ ys. x ∷ ys) (take-drop n xs)

decode_payload-some :
    (len : ℕ) (body src payload rest : List ℕ)
    → decode_payload len body src ≡ (ok (some payload), rest)
    → (len ≤ max_frame_len)
      × (len ≤ length body)
      × (payload ≡ take len body)
      × (rest ≡ drop len body)
      × (is_utf8 payload ≡ true)
unfolding decode_payload
decode_payload-some len body src payload rest e = ground arith

-- A frame that was read is what writing its payload produces, within the budget and valid UTF-8:
-- nothing is lost or invented between the buffer, the payload and what stays behind.
pub encode_frame-decode_frame :
    (src payload rest : List ℕ)
    → All (λ b. b < 256) src
    → decode_frame src ≡ (ok (some payload), rest)
    → (src ≡ (encode_frame payload []).1 ++ rest)
      × (length payload ≤ max_frame_len)
      × (is_utf8 payload ≡ true)
unfolding decode_frame
encode_frame-decode_frame [] payload rest bytes e = absurd (cc)
encode_frame-decode_frame (a ∷ []) payload rest bytes e = absurd (cc)
encode_frame-decode_frame (a ∷ b ∷ []) payload rest bytes e = absurd (cc)
encode_frame-decode_frame (a ∷ b ∷ c ∷ []) payload rest bytes e = absurd (cc)
encode_frame-decode_frame (a ∷ b ∷ c ∷ d ∷ body) payload rest (la, (lb, (lc, (ld, _)))) e =
    let (small, whole, text, left, valid) = decode_payload-some len body _ payload rest e in
    let size = ap length text ∙ length-take len body whole in
    let joined = ap2 text left ∙ take-drop len body in
    let fits : length payload ≤ max_frame_len = omega (arith, size, small) in
    (
      ap (λ prefix. prefix ++ body) (sym (u32_le_unique a b c d la lb lc ld))
          ∙ ap (λ k. u32_le_bytes k ++ body) (sym size)
          ∙ ap (λ zs. u32_le_bytes (length payload) ++ zs) (sym joined)
          ∙ sym (ap (λ step. step.1 ++ rest) (encode_small payload [] fits)),
      fits,
      valid,
    )
  where
    len : ℕ
    len = a + 256 * b + 65536 * c + 16777216 * d

    ap2 : {v v' w w' : List ℕ} → v ≡ v' → w ≡ w' → v ++ w ≡ v' ++ w'
    ap2 f g = cc

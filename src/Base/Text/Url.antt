-- ===== src/Base/Text/Url.antt =====
-- base/string.cc: what `url_decode` makes of what `url_encode` writes.
use sails.Prelude.{
  ◌^◌, ◌≤◌, ℕ, ◌+◌, ◌*◌, ◌/◌, ◌%◌, ◌<◌, ◌≤◌, ◌≡◌, refl, ap, ◌∙◌, Bool, true, false, ◌&&◌, not,
  Option, none, some, List, [], ◌∷◌, ◌++◌, ltb, leb, ◌==◌, if◌then◌else◌, length, length-append,
  arith, Bool-cases, inl, inr, ◌⊎◌,
}
use sails.Prelude.Ints.{int_prefix-all}
use sails.Prelude.Counts.{count}
use sails.Base.Text.{
  is_escaped, hexchar, from_hex_char, prepend, write_bytes, encode_loop, url_encode, decode_loop,
  url_decode,
}

-- A byte as it is encoded.
abbrev pub escape_byte : ℕ → List ℕ
escape_byte c =
    if c == 32
    then 43 ∷ []
    else if is_escaped c
    then 37 ∷ hexchar (c / 16) ∷ hexchar (c % 16) ∷ []
    else c ∷ []

unfoldable pub escape : List ℕ → List ℕ
escape [] = []
escape (c ∷ cs) = escape_byte c ++ escape cs

abbrev pub is_ascii : List ℕ → Bool
is_ascii [] = true
is_ascii (c ∷ cs) = ltb c 128 && is_ascii cs

-- What is written, or NULL.
pub data Written (i len : ℕ) (s : List ℕ) : Option (Option (List ℕ)) → Type 0 where
  refused : len < i + 4 + length (escape s) → Written i len s (some none)
  written : i + length (escape s) < len → Written i len s (some (some (escape s)))

space_or_not :
    (c i len : ℕ) (cs : List ℕ) (r : Option (Option (List ℕ)))
    → Written (i + length (escape_byte c)) len cs r
    → Written i len (c ∷ cs) (prepend (escape_byte c) r)
unfolding escape
space_or_not c i len cs r (refused h) =
    refused (omega (arith, length-append (escape_byte c) (escape cs)))
space_or_not c i len cs r (written h) =
    written (omega (arith, length-append (escape_byte c) (escape cs)))

length-escape_byte : (c : ℕ) → (0 < length (escape_byte c)) × (length (escape_byte c) ≤ 3)
length-escape_byte c = ground arith

length-escape : (s : List ℕ) → length s ≤ length (escape s)
unfolding escape
length-escape [] = omega arith
length-escape (c ∷ cs) =
    omega (arith, length-append (escape_byte c) (escape cs), length-escape_byte c, length-escape cs)

-- One round of the loop: NULL, or the byte as it is encoded, with room for what follows.
encode_step :
    (c i len : ℕ) (cs : List ℕ)
    → c < 128
    → i < len
    → ((encode_loop (c ∷ cs) i len ≡ some none) × (len < i + 4))
      ⊎ ((encode_loop (c ∷ cs) i len
            ≡ prepend (escape_byte c) (encode_loop cs (i + length (escape_byte c)) len))
          × (i + length (escape_byte c) < len))
unfolding encode_loop
encode_step c i len cs a h =
    let low : leb 128 c ≡ false = ground arith in
    elim (Bool-cases (ltb len (i + 2))) [
      | inl full ↦ inl (rw (full, encode_loop) refl, ground arith)
      | inr room ↦ elim (Bool-cases (c == 32)) [
        | inl space ↦ inr (rw (room, space, encode_loop) refl, rw space (ground arith))
        | inr other ↦ elim (Bool-cases (is_escaped c)) [
          | inr plain ↦
              inr (rw (room, other, plain, encode_loop) refl, rw (other, plain) (ground arith))
          | inl special ↦ elim (Bool-cases (ltb len (i + 4))) [
            | inl full ↦ inl (rw (room, other, special, full, encode_loop) refl, ground arith)
            | inr more ↦ inr (
              rw (room, other, special, more, low, encode_loop) refl,
              rw (other, special) (ground arith),
            )
          ]
        ]
      ]
    ]

encode_loop-Written :
    (s : List ℕ) (i len : ℕ) → is_ascii s ≡ true → i < len → Written i len s (encode_loop s i len)
unfolding encode_loop escape
encode_loop-Written [] i len a h =
    let k : ltb i len ≡ true = ground arith in rw (k, encode_loop) (written (omega arith))
encode_loop-Written (c ∷ cs) i len a h = elim (encode_step c i len cs (ground arith) h) [
  | inl (e, full) ↦ rw e (refused (omega arith))
  | inr (e, room) ↦ rw e (
      space_or_not c i len cs (encode_loop cs (i + length (escape_byte c)) len)
        (encode_loop-Written cs (i + length (escape_byte c)) len (ground arith) room))
]

-- `url_encode` of an ASCII string into a buffer that is not empty does not fault. It gives up, or
-- it writes every byte as it is encoded, and the terminator, inside the buffer; it does not give up
-- where four more bytes than that would fit.
pub url_encode-Written :
    (s : List ℕ) (len : ℕ)
    → is_ascii s ≡ true
    → 0 < len
    → length s < 2 ^ 31
    → Written 0 len s (url_encode s len)
unfolding url_encode
url_encode-Written s len a h few = elim (Bool-cases (ltb len (length s))) [
  | inl small ↦
      rw (int_prefix-all s few, small, url_encode) (refused (ground (arith, length-escape s)))
  | inr large ↦ rw (int_prefix-all s few, large, url_encode) (encode_loop-Written s 0 len a h)
]

-- What decoding makes of an encoded string: a space comes back with the plus behind it.
unfoldable pub respaced : List ℕ → List ℕ
respaced [] = []
respaced (c ∷ cs) = (if c == 32 then 32 ∷ 43 ∷ [] else c ∷ []) ++ respaced cs

hex_digits :
    (c : ℕ)
    → c < 128
    → (from_hex_char (hexchar (c / 16)) * 16 + from_hex_char (hexchar (c % 16))) % 256 ≡ c
hex_digits c h =
    let a : from_hex_char (hexchar (c / 16)) ≡ c / 16 = ground arith in
    let b : from_hex_char (hexchar (c % 16)) ≡ c % 16 = ground arith in rw (a, b) (omega arith)

-- One encoded byte in front of what is decoded.
decode_byte :
    (c j len : ℕ) (rest : List ℕ)
    → c < 128
    → j + 2 < len
    → decode_loop (escape_byte c ++ rest) 0 j len
      ≡ write_bytes
          (if c == 32 then 32 ∷ 43 ∷ [] else c ∷ [])
          (decode_loop rest 0 (j + length (if c == 32 then 32 ∷ 43 ∷ [] else c ∷ [])) len)
unfolding decode_loop
decode_byte c j len rest h room =
    let k : leb len (j + 1) ≡ false = ground arith in
    elim (Bool-cases (c == 32)) [
      | inl space ↦ rw (space, k, decode_loop) refl
      | inr other ↦ elim (Bool-cases (is_escaped c)) [
        | inr plain ↦
            let p : (c == 37) ≡ false = ground arith in
            let q : (c == 43) ≡ false = ground arith in rw (other, plain, k, p, q, decode_loop) refl
        | inl special ↦ rw (other, special, k, hex_digits c h, decode_loop) refl
      ]
    ]

decode_loop-escape :
    (s : List ℕ) (j len : ℕ)
    → is_ascii s ≡ true
    → j + length (respaced s) + 1 < len
    → decode_loop (escape s) 0 j len ≡ some (respaced s)
unfolding decode_loop escape respaced
decode_loop-escape [] j len a room =
    let k : ltb j len ≡ true = ground arith in rw (k, decode_loop) refl
decode_loop-escape (c ∷ cs) j len a room =
    let n = length-append (if c == 32 then 32 ∷ 43 ∷ [] else c ∷ []) (respaced cs) in
    decode_byte c j len (escape cs) (ground arith) (ground (arith, n))
    ∙ ap (write_bytes (if c == 32 then 32 ∷ 43 ∷ [] else c ∷ [])) (
        decode_loop-escape cs (j + length (if c == 32 then 32 ∷ 43 ∷ [] else c ∷ [])) len
          (ground arith) (omega (arith, n)))

written_text :
    (s e : List ℕ) (i len : ℕ) (r : Option (Option (List ℕ)))
    → Written i len s r
    → r ≡ some (some e)
    → e ≡ escape s
written_text s e i len r (refused h) q = absurd (ground arith)
written_text s e i len r (written h) q = ground arith

length-respaced : (s : List ℕ) → length s ≤ length (respaced s)
unfolding respaced
length-respaced [] = omega arith
length-respaced (c ∷ cs) = ground (arith, length-respaced cs)

-- What `url_encode` writes for an ASCII string, `url_decode` turns, in a buffer with room, into the
-- string with a plus behind each space.
pub url_decode-respaced :
    (s e : List ℕ) (encode_len source_len : ℕ)
    → is_ascii s ≡ true
    → 0 < encode_len
    → url_encode s encode_len ≡ some (some e)
    → length (respaced s) + 1 < source_len
    → source_len < 2 ^ 31
    → url_decode e source_len ≡ some (respaced s)
unfolding url_decode
url_decode-respaced s e encode_len source_len a h q room few =
    rw
      (written_text s e 0 encode_len (url_encode s encode_len)
        (url_encode-Written s encode_len a h (omega (arith, length-respaced s))) q)
      (decode_loop-escape s 0 source_len a (omega arith))

unspaced : (s : List ℕ) → count 32 s ≡ 0 → respaced s ≡ s
unfolding respaced count
unspaced [] h = refl
unspaced (c ∷ cs) h =
    let k : (c == 32) ≡ false = ground arith in rw k (ap (λ t. c ∷ t) (unspaced cs (ground arith)))

-- What `url_encode` writes for an ASCII string without a space, `url_decode` turns, in a buffer
-- with room and a length that is an `int`, into the string again.
pub url_decode-encode :
    (s e : List ℕ) (encode_len source_len : ℕ)
    → is_ascii s ≡ true
    → count 32 s ≡ 0
    → 0 < encode_len
    → url_encode s encode_len ≡ some (some e)
    → length s + 1 < source_len
    → source_len < 2 ^ 31
    → url_decode e source_len ≡ some s
url_decode-encode s e encode_len source_len a none_spaced h q room few =
    let u = unspaced s none_spaced in
    url_decode-respaced s e encode_len source_len a h q (omega (arith, ap length u)) few
    ∙ ap (λ t. some t) u

-- Bytes that are copied as they are.
abbrev pub is_plain : List ℕ → Bool
is_plain [] = true
is_plain (c ∷ cs) = not (c == 37) && not (c == 43) && is_plain cs

decode_loop-plus :
    (s : List ℕ) (j len : ℕ)
    → is_plain s ≡ true
    → j + length s + 2 ≡ len
    → decode_loop (s ++ 43 ∷ []) 0 j len ≡ none
unfolding decode_loop
decode_loop-plus [] j len p h =
    let k : leb len (j + 1) ≡ false = ground arith in
    let m : ltb (j + 2) len ≡ false = ground arith in rw (k, m, decode_loop) refl
decode_loop-plus (c ∷ cs) j len p h =
    let k : leb len (j + 1) ≡ false = ground arith in
    let x : (c == 37) ≡ false = ground arith in
    let y : (c == 43) ≡ false = ground arith in
    rw (k, x, y, decode_loop-plus cs (j + 1) len (ground arith) (omega arith), decode_loop) refl

-- With a plus at the end of what is decoded, whose space takes the last byte but one of the buffer,
-- `url_decode` writes the terminator behind the end of the buffer.
pub url_decode-overflow :
    (s : List ℕ) (source_len : ℕ)
    → is_plain s ≡ true
    → length s + 2 ≡ source_len
    → url_decode (s ++ 43 ∷ []) source_len ≡ none
unfolding url_decode
url_decode-overflow s source_len p h = decode_loop-plus s 0 source_len p (omega arith)

-- ===== src/Base/Text.antt =====
-- base/string.cc: C strings.
--
-- A string that is only read is the list of its bytes before the terminator; a buffer that is
-- written is a list of all its bytes. A `char` is signed: a byte from 128 on is a negative number.
-- `none` as a result is a fault: a failed assert, or an access outside a string or a buffer.
pub mod Url
pub mod Escapes
pub mod Copies
pub mod Search
mod Tests
use sails.Prelude.{
  ℕ, zero, suc, ◌+◌, ◌-◌, ◌*◌, ◌/◌, ◌%◌, ◌<◌, ◌≤◌, min, Bool, true, false, ◌&&◌, not, Option, none,
  some, List, [], ◌∷◌, ◌++◌, ltb, leb, ◌==◌, if◌then◌else◌, length, get_elem?, take, drop,
}
use sails.Prelude.Ints.{int_prefix}
use sails.Base.Buffer.{overwrite}

-- The number of bytes before a terminator, the end, or the limit.
pub strnlen : List ℕ → ℕ → ℕ
strnlen [] n = 0
strnlen (c ∷ cs) zero = 0
strnlen (c ∷ cs) (suc n) = if c == 0 then 0 else suc (strnlen cs n)

-- How many of `slen` bytes fit with a terminator.
abbrev pub fitting : ℕ → ℕ → ℕ
fitting slen room = if ltb slen room then slen else room - 1

-- `memcpy` to a position and the terminator behind it.
abbrev pub put_string : List ℕ → ℕ → List ℕ → List ℕ
put_string dst at bytes = overwrite (overwrite dst at bytes) (at + length bytes) (0 ∷ [])

-- The length that is returned, and the buffer.
pub strlncat : List ℕ → ℕ → List ℕ → ℕ → Option (ℕ × List ℕ)
unfolding strnlen
strlncat dst len src n =
    let slen = strnlen src n in
    let dlen = strnlen dst len in
    if ltb (slen + dlen) len
    then some (
      slen + dlen,
      if ltb dlen len then put_string dst dlen (take (fitting slen (len - dlen)) src) else dst,
    )
    else none

pub strlncpy : List ℕ → ℕ → List ℕ → ℕ → Option (ℕ × List ℕ)
unfolding strnlen
strlncpy dst len src n =
    let slen = strnlen src n in
    if ltb slen len
    then some (slen, if ltb 0 len then put_string dst 0 (take (fitting slen len) src) else dst)
    else none

-- The loop of `last_index_of` down from `k`; `none` is -1.
pub last_loop : List ℕ → ℕ → ℕ → Option ℕ
last_loop src c zero = none
last_loop src c (suc k) =
    let rest = last_loop src c k in
    elim (get_elem? src k) [ none ↦ rest | some x ↦ if x == c then some k else rest ]

pub last_index_of : List ℕ → ℕ → Option ℕ
unfolding last_loop
last_index_of src c = last_loop src c (length src)

-- The loop of `first_index_of` from `i` on.
pub first_loop : ℕ → List ℕ → ℕ → Option ℕ
first_loop i [] c = none
first_loop i (x ∷ xs) c = let rest = first_loop (i + 1) xs c in if x == c then some i else rest

pub first_index_of : List ℕ → ℕ → Option ℕ
unfolding first_loop
first_index_of src c = first_loop 0 src c

-- The bytes that are written as `%` and two digits; a byte from 128 on is below '0'.
abbrev pub is_escaped : ℕ → Bool
is_escaped c =
    if leb 128 c
    then true
    else if ltb c 48
    then not (c == 45) && not (c == 46)
    else if ltb c 65
    then ltb 57 c
    else if ltb c 97
    then ltb 90 c && not (c == 95)
    else ltb 122 c && not (c == 126)

-- `hexchars`
abbrev pub hexchar : ℕ → ℕ
hexchar n = if ltb n 10 then 48 + n else 55 + n

abbrev pub prepend : List ℕ → Option (Option (List ℕ)) → Option (Option (List ℕ))
prepend xs none = none
prepend xs (some none) = some none
prepend xs (some (some ys)) = some (some (xs ++ ys))

-- The loop of `url_encode` from `encode_index` on: `some none` for NULL, or the bytes that are
-- written from there on. A negative byte is read from before `hexchars`.
pub encode_loop : List ℕ → ℕ → ℕ → Option (Option (List ℕ))
encode_loop [] encode_index encode_len =
    if ltb encode_index encode_len then some (some []) else none
encode_loop (c ∷ cs) encode_index encode_len =
    if ltb encode_len (encode_index + 2) then some none else elim (c == 32) [
      | true ↦ prepend (43 ∷ []) (encode_loop cs (encode_index + 1) encode_len)
      | false ↦ elim (is_escaped c) [
        | true ↦ if ltb encode_len (encode_index + 4) then some none else elim (leb 128 c) [
          | true ↦ none
          | false ↦
              prepend (37 ∷ hexchar (c / 16) ∷ hexchar (c % 16) ∷ [])
                (encode_loop cs (encode_index + 3) encode_len)
        ]
        | false ↦ prepend (c ∷ []) (encode_loop cs (encode_index + 1) encode_len)
      ]
    ]

-- The length is converted to `int`.
pub url_encode : List ℕ → ℕ → Option (Option (List ℕ))
unfolding encode_loop
url_encode source_str encode_len =
    let cs = int_prefix source_str in
    if ltb encode_len (length cs) then some none else encode_loop cs 0 encode_len

-- `FromHexChar`: also a letter behind F counts.
abbrev pub from_hex_char : ℕ → ℕ
from_hex_char hex =
    if leb 48 hex && leb hex 57
    then hex - 48
    else if leb 65 hex && leb hex 90
    then hex - 65 + 10
    else 32

-- The bytes of a string with its terminator.
abbrev pub byte_at : List ℕ → ℕ → Option ℕ
byte_at cs i = get_elem? (cs ++ 0 ∷ []) i

abbrev pub write_bytes : List ℕ → Option (List ℕ) → Option (List ℕ)
write_bytes xs none = none
write_bytes xs (some ys) = some (xs ++ ys)

-- The terminator behind what is decoded.
abbrev pub terminate : ℕ → ℕ → Option (List ℕ)
terminate source_index source_len = if ltb source_index source_len then some [] else none

-- The loop of `url_decode` from `source_index` on, where the next `skip` bytes were read already:
-- what is written from there on.
pub decode_loop : List ℕ → ℕ → ℕ → ℕ → Option (List ℕ)
decode_loop [] skip source_index source_len = terminate source_index source_len
decode_loop (c ∷ cs) (suc skip) source_index source_len =
    decode_loop cs skip source_index source_len
decode_loop (c ∷ cs) zero source_index source_len =
    if leb source_len (source_index + 1)
    then terminate source_index source_len
    else elim (c == 37) [
      | true ↦ elim (byte_at cs 0) [
        | none ↦ none
        | some high ↦ elim (byte_at cs 1) [
          | none ↦ none
          | some low ↦
              write_bytes ((from_hex_char high * 16 + from_hex_char low) % 256 ∷ [])
                (decode_loop cs 2 (source_index + 1) source_len)
        ]
      ]
      | false ↦ elim (c == 43) [
        | true ↦ write_bytes (32 ∷ c ∷ []) (decode_loop cs 0 (source_index + 2) source_len)
        | false ↦ write_bytes (c ∷ []) (decode_loop cs 0 (source_index + 1) source_len)
      ]
    ]

pub url_decode : List ℕ → ℕ → Option (List ℕ)
unfolding decode_loop
url_decode encode_str source_len = decode_loop encode_str 0 0 source_len

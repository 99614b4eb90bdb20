-- ===== src/Base/Buffer.antt =====
-- base/buffer.h: a byte buffer with a read and a write position.
--
-- A byte is a number below 256. `none` is a fault: a failed assert, or a copy that leaves the
-- vector. The allocation of the vector does not fail.
pub mod Contents
pub mod Words
pub mod Flaws
mod Tests
use sails.Prelude.{
  ℕ, zero, suc, ◌+◌, ◌-◌, ◌*◌, ◌/◌, ◌%◌, ◌^◌, Bool, true, false, ◌&&◌, ◌||◌, not, Option, none,
  some, List, [], ◌∷◌, ◌++◌, ltb, leb, ◌==◌, if◌then◌else◌, length, take, drop, replicate,
}
use sails.Prelude.Words.{sub64}

pub record Buffer : Type 0 where
  pub bytes : List ℕ
  pub read_index : ℕ
  pub write_index : ℕ

abbrev pub init_size : ℕ
init_size = 1024

unfoldable pub new_buffer : Buffer
new_buffer = record { bytes = replicate init_size 0; read_index = 0; write_index = 0 }

abbrev pub readable : Buffer → ℕ
readable b = sub64 b.write_index b.read_index

abbrev pub writeable : Buffer → ℕ
writeable b = sub64 (length b.bytes) b.write_index

-- `std::copy` of `src` to position `at`.
abbrev pub overwrite : List ℕ → ℕ → List ℕ → List ℕ
overwrite bytes at src = take at bytes ++ (src ++ drop (at + length src) bytes)

-- `resize` to a greater size fills with zeros.
abbrev pub resize : List ℕ → ℕ → List ℕ
resize bytes n = take n bytes ++ replicate (n - length bytes) 0

-- The bytes from `read_index` up to `write_index`.
abbrev pub unread : Buffer → List ℕ
unread b = take (b.write_index - b.read_index) (drop b.read_index b.bytes)

pub make_space : Buffer → ℕ → Buffer
make_space b len =
    if ltb (writeable b + b.read_index) len
    then record b { bytes = resize b.bytes (b.write_index + len) }
    else record b {
      bytes = overwrite b.bytes 0 (unread b);
      read_index = 0;
      write_index = readable b;
    }

-- `ensure_writeable` up to its assert.
reserve : Buffer → ℕ → Buffer
unfolding make_space
reserve b len = if ltb (writeable b) len then make_space b len else b

pub ensure_writeable : Buffer → ℕ → Option Buffer
unfolding reserve
ensure_writeable b len = let c = reserve b len in if ltb (writeable c) len then none else some c

-- `append` of the bytes at a pointer, which lie outside the buffer.
pub append : Buffer → List ℕ → Option Buffer
unfolding ensure_writeable
append b src = elim (ensure_writeable b (length src)) [
  | none ↦ none
  | some c ↦ some (record c {
    bytes = overwrite c.bytes c.write_index src;
    write_index = c.write_index + length src;
  })
]

pub retrieve_all : Buffer → Buffer
retrieve_all b = record b { read_index = 0; write_index = 0 }

pub retrieve : Buffer → ℕ → Buffer
unfolding retrieve_all
retrieve b len =
    if ltb (readable b) len then retrieve_all b else record b { read_index = b.read_index + len }

-- `len` bytes from position `i` on, a fault past the end.
abbrev pub slice : List ℕ → ℕ → ℕ → Option (List ℕ)
slice bytes i len = if ltb (length bytes) (i + len) then none else some (take len (drop i bytes))

-- Four bytes in network order as a 32 bit pattern: the `memcpy` and `ntohl`.
abbrev pub word_of : List ℕ → ℕ
word_of (a ∷ b ∷ c ∷ d ∷ []) = ((a * 256 + b) * 256 + c) * 256 + d
word_of _ = 0

-- `htonl`, as bytes.
abbrev pub bytes_of : ℕ → List ℕ
bytes_of x = (x / 2 ^ 24 % 256) ∷ (x / 2 ^ 16 % 256) ∷ (x / 2 ^ 8 % 256) ∷ (x % 256) ∷ []

pub peek_int32 : Buffer → Option ℕ
peek_int32 b =
    if ltb (readable b) 4
    then none
    else elim (slice b.bytes b.read_index 4) [ none ↦ none | some bs ↦ some (word_of bs) ]

pub read_int32 : Buffer → Option (ℕ × Buffer)
unfolding peek_int32 retrieve
read_int32 b = elim (peek_int32 b) [ none ↦ none | some x ↦ some (x, retrieve b 4) ]

pub append_int32 : Buffer → ℕ → Option Buffer
unfolding append
append_int32 b x = append b (bytes_of x)

-- `strncpy`: up to the first zero byte, then zeros.
pub strncpy : ℕ → List ℕ → List ℕ
strncpy zero src = []
strncpy (suc n) [] = 0 ∷ strncpy n []
strncpy (suc n) (c ∷ cs) = if c == 0 then replicate (suc n) 0 else c ∷ strncpy n cs

-- The count of unread bytes as an `int`, and the lesser of it and `max`; `none` where it is negative,
-- which is a count of nearly 2 ^ 64 to `strncpy`.
abbrev pub int_count : Buffer → ℕ → Option ℕ
int_count b max =
    let n = readable b % 2 ^ 32 in
    if leb (2 ^ 31) n then none else some (if ltb max n then max else n)

-- `read_string` for a `max` that is not negative: it copies from the start of the vector.
pub read_string : Buffer → ℕ → Option (List ℕ)
unfolding strncpy
read_string b max = elim (int_count b max) [ none ↦ none | some read ↦ some (strncpy read b.bytes) ]

-- What is copied out, and the buffer afterwards.
pub read_str : Buffer → ℕ → Option (List ℕ × Buffer)
unfolding strncpy retrieve
read_str b max = elim (int_count b max) [
  | none ↦ none
  | some read ↦ some (strncpy read b.bytes, retrieve b read)
]

pub swap : Buffer → Buffer → Buffer × Buffer
swap b other = (other, b)

-- `shrink`: the new buffer is given `writeable()` bytes from the read position on.
pub shrink : Buffer → ℕ → Option Buffer
unfolding append ensure_writeable new_buffer swap
shrink b extra = elim (ensure_writeable new_buffer (readable b + extra)) [
  | none ↦ none
  | some other ↦ elim (slice b.bytes b.read_index (writeable b)) [
    | none ↦ none
    | some src ↦ elim (append other src) [ none ↦ none | some filled ↦ some (swap b filled).0 ]
  ]
]

-- `read(fd, …)`: what the descriptor delivers, or an error; the kernel writes at most `len` bytes.
pub read_fd : Buffer → ℕ → Option (List ℕ) → Option (Option ℕ × Buffer)
unfolding ensure_writeable
read_fd b len delivered = elim (ensure_writeable b len) [
  | none ↦ none
  | some c ↦ elim delivered [
    | none ↦ some (none, c)
    | some got ↦
        if ltb len (length got)
        then none
        else some (
          some (length got),
          record c {
            bytes = overwrite c.bytes c.write_index got;
            write_index = c.write_index + length got;
          },
        )
  ]
]

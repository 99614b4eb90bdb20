-- ===== src/Base/Text/Copies.antt =====
-- base/string.cc: `strlncat` and `strlncpy` into a buffer with room.
use sails.Prelude.{
  ℕ, zero, suc, ◌+◌, ◌-◌, ◌<◌, ◌≤◌, ◌≡◌, refl, sym, ap, ap₂, ◌∙◌, Bool, true, false, ◌&&◌, not,
  some, List, [], ◌∷◌, ◌++◌, ltb, ◌==◌, length, length-append, length-take, length-drop, take, drop,
  take-append, drop-append, arith, Bool-cases, inl, inr,
}
use sails.Prelude.Splits.{drop-drop}
use mathlib.Core.List.{append_assoc}
use sails.Base.Buffer.{overwrite}
use sails.Base.Text.{strnlen, put_string, strlncat, strlncpy}

-- No byte is the terminator.
abbrev is_text : List ℕ → Bool
is_text [] = true
is_text (c ∷ cs) = not (c == 0) && is_text cs

-- The string that a buffer of some length holds.
abbrev pub content : List ℕ → ℕ → List ℕ
content dst len = take (strnlen dst len) dst

content-is_text : (xs : List ℕ) (n : ℕ) → is_text (content xs n) ≡ true
unfolding strnlen
content-is_text [] n = refl
content-is_text (x ∷ xs) zero = refl
content-is_text (x ∷ xs) (suc n) = elim (Bool-cases (x == 0)) [
  | inl stop ↦ rw stop refl
  | inr more ↦ rw (more, more) (content-is_text xs n)
]

strnlen_le : (xs : List ℕ) (n : ℕ) → (strnlen xs n ≤ n) × (strnlen xs n ≤ length xs)
unfolding strnlen
strnlen_le [] n = (omega arith, omega arith)
strnlen_le (x ∷ xs) zero = (omega arith, omega arith)
strnlen_le (x ∷ xs) (suc n) = let h = strnlen_le xs n in ground (arith, h)

is_text-append :
    (xs ys : List ℕ) → is_text xs ≡ true → is_text ys ≡ true → is_text (xs ++ ys) ≡ true
is_text-append [] ys h k = k
is_text-append (x ∷ xs) ys h k = ground (arith, is_text-append xs ys)

-- A text with its terminator is read as it is.
content-text :
    (xs ys : List ℕ) (n : ℕ) → is_text xs ≡ true → length xs < n → content (xs ++ 0 ∷ ys) n ≡ xs
unfolding strnlen
content-text xs ys zero h k = absurd (omega arith)
content-text [] ys (suc n) h k = refl
content-text (x ∷ xs) ys (suc n) h k =
    let m : (x == 0) ≡ false = ground arith in
    rw m (ap (λ t. x ∷ t) (content-text xs ys n (ground arith) (omega arith)))

put_string-parts :
    (dst bytes : List ℕ) (at : ℕ)
    → at + length bytes < length dst
    → put_string dst at bytes ≡ (take at dst ++ bytes) ++ 0 ∷ drop (at + length bytes + 1) dst
put_string-parts dst bytes at h =
    let p : ℕ = at + length bytes in
    let front : List ℕ = take at dst ++ bytes in
    let n : length front ≡ p =
      omega (arith, length-append (take at dst) bytes, length-take at dst) in
    let o : overwrite dst at bytes ≡ front ++ drop p dst =
      sym (append_assoc (take at dst) bytes (drop p dst)) in
    ap (λ b. overwrite b p (0 ∷ [])) o
    ∙ ap₂ (λ xs ys. xs ++ 0 ∷ ys) (take-append front (drop p dst) p (sym n))
        (sym (drop-drop 1 p (front ++ drop p dst))
          ∙ ap (drop 1) (drop-append front (drop p dst) p (sym n))
          ∙ drop-drop 1 p dst)

length-put_string :
    (dst bytes : List ℕ) (at : ℕ)
    → at + length bytes < length dst
    → length (put_string dst at bytes) ≡ length dst
length-put_string dst bytes at h = omega (
  arith,
  ap length (put_string-parts dst bytes at h),
  length-append (take at dst ++ bytes) (0 ∷ drop (at + length bytes + 1) dst),
  length-append (take at dst) bytes,
  length-take at dst,
  length-drop (at + length bytes + 1) dst,
)

-- A string of the source put behind a prefix that is a text.
put_string-content :
    (dst src : List ℕ) (at len n : ℕ)
    → is_text (take at dst) ≡ true
    → at + strnlen src n < len
    → len ≤ length dst
    → (content (put_string dst at (content src n)) len ≡ take at dst ++ content src n)
      × (length (put_string dst at (content src n)) ≡ length dst)
put_string-content dst src at len n t room h =
    let k : length (content src n) ≡ strnlen src n =
      omega (arith, length-take (strnlen src n) src, strnlen_le src n) in
    let b : at + length (content src n) < length dst = omega arith in
    (
      ap (λ b. content b len) (put_string-parts dst (content src n) at b)
          ∙ content-text (take at dst ++ content src n) (drop (at + length (content src n) + 1) dst)
              len (is_text-append (take at dst) (content src n) t (content-is_text src n))
              (omega (arith, length-append (take at dst) (content src n), length-take at dst)),
      length-put_string dst (content src n) at b,
    )

-- Where the string that the buffer holds and the part of the source that is asked for fit with a
-- terminator, `strlncat` returns the length of both, and the buffer, of the length that it had,
-- then holds the one behind the other.
pub strlncat-content :
    (dst src : List ℕ) (len n : ℕ)
    → len ≤ length dst
    → strnlen src n + strnlen dst len < len
    → (dst' : List ℕ) × (strlncat dst len src n ≡ some (strnlen src n + strnlen dst len, dst'))
      × (content dst' len ≡ content dst len ++ content src n)
      × (length dst' ≡ length dst)
unfolding strlncat
strlncat-content dst src len n h room =
    let fits : ltb (strnlen src n + strnlen dst len) len ≡ true = ground arith in
    let inside : ltb (strnlen dst len) len ≡ true = ground arith in
    let whole : ltb (strnlen src n) (len - strnlen dst len) ≡ true = ground arith in
    let (c, l) =
      put_string-content dst src (strnlen dst len) len n (content-is_text dst len) (omega arith)
        h in
    (put_string dst (strnlen dst len) (content src n), rw (fits, inside, whole) refl, c, l)

-- Where the part of the source that is asked for fits with a terminator, `strlncpy` returns its
-- length, and the buffer, of the length that it had, then holds it.
pub strlncpy-content :
    (dst src : List ℕ) (len n : ℕ)
    → len ≤ length dst
    → strnlen src n < len
    → (dst' : List ℕ) × (strlncpy dst len src n ≡ some (strnlen src n, dst'))
      × (content dst' len ≡ content src n)
      × (length dst' ≡ length dst)
unfolding strlncpy
strlncpy-content dst src len n h room =
    let fits : ltb (strnlen src n) len ≡ true = ground arith in
    let some_room : ltb 0 len ≡ true = ground arith in
    let (c, l) = put_string-content dst src 0 len n refl (omega arith) h in
    (put_string dst 0 (content src n), rw (fits, some_room) refl, c, l)

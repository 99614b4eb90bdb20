-- ===== src/Base/Buffer/Flaws.antt =====
-- base/buffer.h: `read_string` and `shrink` do not see what the other methods see.
use sails.Prelude.{
  ℕ, zero, suc, ◌+◌, ◌*◌, ◌^◌, ◌<◌, ◌≡◌, ◌≢◌, refl, sym, ap, ◌∙◌, false, Option, none, some, min,
  List, [], ◌∷◌, ◌++◌, arith, ltb, if◌then◌else◌, length, take, drop, length-take, length-drop,
}
use sails.Base.Buffer.{
  Buffer, new_buffer, int_count, readable, writeable, unread, strncpy, read_string, shrink,
}
use sails.Base.Buffer.Contents.{Inv, length-unread, append-unread, ensure_writeable-Ready}

abbrev head? : List ℕ → Option ℕ
head? [] = none
head? (c ∷ cs) = some c

head?-strncpy : (n c : ℕ) (cs : List ℕ) → 0 < n → head? (strncpy n (c ∷ cs)) ≡ some c
unfolding strncpy
head?-strncpy zero c cs h = elim h [ ]
head?-strncpy (suc n) c cs h = ground arith

some_eq : {A : Type 0} (c d : A) → some c ≡ some d → c ≡ d
some_eq c d e = cc

-- `read_string` copies from the start of the vector. Where the first byte there is not the first
-- unread byte, it does not return the unread bytes, for no limit but 0, where
-- their number is an `int`.
pub read_string_ne :
    (b : Buffer) (max c d : ℕ) (cs ds : List ℕ)
    → Inv b
    → b.bytes ≡ c ∷ cs
    → unread b ≡ d ∷ ds
    → c ≢ d
    → 0 < max
    → readable b < 2 ^ 31
    → read_string b max ≢ some (strncpy (min (readable b) max) (unread b))
unfolding read_string
read_string_ne b max c d cs ds v e f ne pos few same =
    let n : length (unread b) ≡ suc (length ds) = ap length f in
    let m = length-unread b v in
    let k : ℕ = if ltb max (readable b) then max else readable b in
    let some_out : 0 < k = ground (arith, v.ordered, v.within, v.small) in
    let some_left : 0 < min (readable b) max = ground (arith, v.ordered, v.within, v.small) in
    let out : head? (strncpy k b.bytes) ≡ some c =
      ap (λ xs. head? (strncpy k xs)) e ∙ head?-strncpy k c cs some_out in
    let left : head? (strncpy (min (readable b) max) (unread b)) ≡ some d =
      ap (λ xs. head? (strncpy (min (readable b) max) xs)) f ∙ head?-strncpy _ d ds some_left in
    let r : read_string b max ≡ some (strncpy k b.bytes) =
      let q : int_count b max ≡ some k = ground arith in
      ap (λ o. elim o [ none ↦ none | some read ↦ some (strncpy read b.bytes) ]) q in
    let copied = some_eq _ _ (sym r ∙ same) in
    let both : some c ≡ some d = sym out ∙ ap head? copied ∙ left in ne (some_eq c d both)

new_buffer-Inv : Inv new_buffer
unfolding new_buffer
new_buffer-Inv = record { ordered = omega arith; within = omega arith; small = omega arith }

-- `shrink` keeps as many bytes as the old buffer had room for, not as many as were unread.
pub shrink-writeable :
    (b : Buffer) (extra : ℕ)
    → Inv b
    → 2 * length b.bytes + extra < 2 ^ 61
    → (c : Buffer) × (shrink b extra ≡ some c)
      × Inv c
      × (unread c ≡ take (writeable b) (drop b.read_index b.bytes))
      × (length (unread c) ≡ writeable b)
unfolding shrink
shrink-writeable b extra v h =
    let src : List ℕ = take (writeable b) (drop b.read_index b.bytes) in
    let n : length src ≡ writeable b = ground (
      arith,
      length-take (writeable b) (drop b.read_index b.bytes),
      length-drop b.read_index b.bytes,
      v.ordered,
      v.within,
      v.small,
    ) in
    let (other, made, r) =
      ensure_writeable-Ready new_buffer (readable b + extra) new_buffer-Inv
        (unfold new_buffer in omega (arith, v.ordered, v.within, v.small)) in
    let fits : ltb (length b.bytes) (b.read_index + writeable b) ≡ false =
      ground (arith, v.ordered, v.within, v.small) in
    let (c, done, w, u, grown) =
      append-unread other src r.valid
        (unfold new_buffer in omega (arith, r.grown, v.ordered, v.within, v.small)) in
    let empty : unread other ≡ [] = r.same ∙ (unfold new_buffer in refl) in
    let all : unread c ≡ src = u ∙ ap (λ xs. xs ++ src) empty in
    (c, rw (made, fits, done, shrink), w, all, ap length all ∙ n)

-- ===== src/Base/Buffer/Words.antt =====
-- base/buffer.h: 32 bit words in network order.
use sails.Prelude.{
  ℕ, suc, ◌+◌, ◌-◌, ◌^◌, ◌<◌, ◌≡◌, sym, ap, ◌∙◌, false, some, List, [], ◌++◌, arith, ltb, length,
  take, drop,
}
use sails.Prelude.Splits.{take-take_le}
use sails.Base.Buffer.{
  Buffer, readable, unread, word_of, bytes_of, peek_int32, read_int32, append_int32, retrieve,
}
use sails.Base.Buffer.Contents.{Inv, length-unread, append-unread, retrieve-unread}

pub word_of-bytes_of : (x : ℕ) → x < 2 ^ 32 → word_of (bytes_of x) ≡ x
word_of-bytes_of x h = omega arith

peek_int32-word :
    (b : Buffer) (x : ℕ) (rest : List ℕ)
    → Inv b
    → x < 2 ^ 32
    → unread b ≡ bytes_of x ++ rest
    → peek_int32 b ≡ some x
unfolding peek_int32
peek_int32-word b x rest v h e =
    let n : length (unread b) ≡ suc (suc (suc (suc (length rest)))) = ap length e in
    let m = length-unread b v in
    let enough : ltb (readable b) 4 ≡ false = ground (arith, v.ordered, v.within, v.small) in
    let fits : ltb (length b.bytes) (b.read_index + 4) ≡ false = ground (arith, v.within) in
    let front : take 4 (drop b.read_index b.bytes) ≡ bytes_of x =
      sym (take-take_le 4 (b.write_index - b.read_index) (drop b.read_index b.bytes) (omega arith))
      ∙ ap (take 4) e in
    rw (enough, fits, front, peek_int32) (ap some (word_of-bytes_of x h))

-- When a word and then `rest` is unread, `read_int32` returns the word and leaves `rest`.
pub read_int32-word :
    (b : Buffer) (x : ℕ) (rest : List ℕ)
    → Inv b
    → x < 2 ^ 32
    → unread b ≡ bytes_of x ++ rest
    → (c : Buffer) × (read_int32 b ≡ some (x, c)) × Inv c × (unread c ≡ rest)
unfolding read_int32
read_int32-word b x rest v h e =
    let (w, u) = retrieve-unread b 4 v in
    (retrieve b 4, rw (peek_int32-word b x rest v h e, read_int32), w, u ∙ ap (drop 4) e)

-- A word that is appended to an empty buffer is the word that is read, and the buffer is empty again.
pub read-append_int32 :
    (b : Buffer) (x : ℕ)
    → Inv b
    → x < 2 ^ 32
    → unread b ≡ []
    → length b.bytes + 4 < 2 ^ 62
    → (c d : Buffer) × (append_int32 b x ≡ some c)
      × (read_int32 c ≡ some (x, d))
      × Inv d
      × (unread d ≡ [])
unfolding append_int32
read-append_int32 b x v h e small =
    let (c, done, w, u, grown) = append-unread b (bytes_of x) v small in
    let (d, got, z, left) = read_int32-word c x [] w h (u ∙ ap (λ xs. xs ++ bytes_of x) e) in
    (c, d, done, got, z, left)

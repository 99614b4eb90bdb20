-- ===== src/Base/Buffer/Contents.antt =====
-- base/buffer.h: the buffer as a queue of bytes.
use sails.Prelude.{
  ℕ, ◌+◌, ◌-◌, ◌^◌, ◌<◌, ◌≤◌, ◌≡◌, inl, inr, refl, sym, ap, ◌∙◌, false, some, List, ◌++◌, arith,
  ltb, length, take, drop, replicate, length-append, length-take, length-drop, length-replicate,
  take_all, Bool-cases, take-append,
}
use sails.Prelude.Splits.{
  drop-append_le, take-append_le, take-append_add, drop-take, drop-drop, drop_all,
}
use sails.Base.Buffer.{
  Buffer, readable, writeable, overwrite, resize, unread, reserve, ensure_writeable, append,
  retrieve, retrieve_all, read_fd,
}

-- The positions are in order, and the vector is far from the limits of `size_t`.
pub record Inv (b : Buffer) : Type 0 where
  pub ordered : b.read_index ≤ b.write_index
  pub within : b.write_index ≤ length b.bytes
  pub small : length b.bytes < 2 ^ 62

pub length-unread : (b : Buffer) → Inv b → length (unread b) ≡ b.write_index - b.read_index
length-unread b v = omega (
  arith,
  length-take (b.write_index - b.read_index) (drop b.read_index b.bytes),
  length-drop b.read_index b.bytes,
  v.ordered,
  v.within,
)

-- The same unread bytes, and room for `len` more.
pub record Ready (b : Buffer) (len : ℕ) (c : Buffer) : Type 0 where
  pub valid : Inv c
  pub same : unread c ≡ unread b
  pub room : c.write_index + len ≤ length c.bytes
  pub grown : length c.bytes ≤ length b.bytes + len

grow-Ready :
    (b : Buffer) (len : ℕ)
    → Inv b
    → length b.bytes < b.write_index + len
    → b.write_index + len < 2 ^ 62
    → Ready b len (record b { bytes = resize b.bytes (b.write_index + len) })
grow-Ready b len v h small =
    let z : List ℕ = replicate (b.write_index + len - length b.bytes) 0 in
    let e : resize b.bytes (b.write_index + len) ≡ b.bytes ++ z =
      ap (λ xs. xs ++ z) (take_all (b.write_index + len) b.bytes (omega arith)) in
    let n : length (b.bytes ++ z) ≡ b.write_index + len = omega (
      arith,
      length-append b.bytes z,
      length-replicate {0} {A = ℕ} (b.write_index + len - length b.bytes) 0,
    ) in
    rw e (record {
      valid = record { ordered = v.ordered; within = omega arith; small = omega arith };
      same =
          ap (take (b.write_index - b.read_index))
            (drop-append_le b.read_index b.bytes z (omega (arith, v.ordered, v.within)))
          ∙ take-append_le (b.write_index - b.read_index) (drop b.read_index b.bytes) z
              (omega (arith, length-drop b.read_index b.bytes, v.within));
      room = omega arith;
      grown = omega (arith, v.within);
    })

move-Ready :
    (b : Buffer) (len : ℕ)
    → Inv b
    → b.write_index + len ≤ length b.bytes + b.read_index
    → Ready b len (record b {
      bytes = overwrite b.bytes 0 (unread b);
      read_index = 0;
      write_index = readable b;
    })
move-Ready b len v h =
    let r : readable b ≡ b.write_index - b.read_index =
      omega (arith, v.ordered, v.within, v.small) in
    let m = length-unread b v in
    let n : length (overwrite b.bytes 0 (unread b)) ≡ length b.bytes = omega (
      arith,
      length-append (unread b) (drop (0 + length (unread b)) b.bytes),
      length-drop (0 + length (unread b)) b.bytes,
      v.within,
    ) in
    record {
      valid = record {
        ordered = omega arith;
        within = omega (arith, v.within);
        small = omega (arith, v.small);
      };
      same =
          take-append (unread b) (drop (0 + length (unread b)) b.bytes) (readable b - 0)
            (omega arith);
      room = omega (arith, v.ordered);
      grown = omega arith;
    }

reserve-Ready :
    (b : Buffer) (len : ℕ) → Inv b → length b.bytes + len < 2 ^ 62 → Ready b len (reserve b len)
unfolding reserve
reserve-Ready b len v h = elim (Bool-cases (ltb (writeable b) len)) [
  | inr enough ↦
      rw (enough, reserve)
        (record {
          valid = v;
          same = refl;
          room = ground (arith, v.within, v.small);
          grown = omega arith;
        })
  | inl short ↦ elim (Bool-cases (ltb (writeable b + b.read_index) len)) [
    | inl full ↦
        rw (short, full, reserve)
          (grow-Ready b len v (ground (arith, v.ordered, v.within, v.small))
            (omega (arith, v.within)))
    | inr room ↦
        rw (short, room, reserve)
          (move-Ready b len v (ground (arith, v.ordered, v.within, v.small)))
  ]
]

-- `ensure_writeable` never fails its assert: it returns the same unread bytes with room for `len`
-- more, while the sizes stay in range.
pub ensure_writeable-Ready :
    (b : Buffer) (len : ℕ)
    → Inv b
    → length b.bytes + len < 2 ^ 62
    → (c : Buffer) × (ensure_writeable b len ≡ some c) × Ready b len c
unfolding ensure_writeable
ensure_writeable-Ready b len v h =
    let r = reserve-Ready b len v h in
    let t : ltb (writeable (reserve b len)) len ≡ false =
      ground (arith, r.room, r.valid.within, r.valid.small) in
    (reserve b len, rw (ensure_writeable, t), r)

-- The buffer with `src` copied to the write position.
abbrev pub filled : Buffer → List ℕ → Buffer
filled c src = record c {
  bytes = overwrite c.bytes c.write_index src;
  write_index = c.write_index + length src;
}

length-filled :
    (c : Buffer) (src : List ℕ)
    → c.write_index + length src ≤ length c.bytes
    → length (filled c src).bytes ≡ length c.bytes
length-filled c src h = omega (
  arith,
  length-append (take c.write_index c.bytes) (src ++ drop (c.write_index + length src) c.bytes),
  length-append src (drop (c.write_index + length src) c.bytes),
  length-take c.write_index c.bytes,
  length-drop (c.write_index + length src) c.bytes,
)

unread-filled :
    (c : Buffer) (src : List ℕ)
    → Inv c
    → c.write_index + length src ≤ length c.bytes
    → unread (filled c src) ≡ unread c ++ src
unread-filled c src v h =
    let tail : List ℕ = drop (c.write_index + length src) c.bytes in
    let w = length-take c.write_index c.bytes in
    let m = length-unread c v in
    let e : c.write_index + length src - c.read_index ≡ c.write_index - c.read_index + length src =
      omega (arith, v.ordered) in
    ap (take (c.write_index + length src - c.read_index)) (
      drop-append_le c.read_index (take c.write_index c.bytes) (src ++ tail)
        (omega (arith, v.ordered, v.within))
      ∙ ap (λ xs. xs ++ (src ++ tail)) (drop-take c.read_index c.write_index c.bytes))
    ∙ ap (λ n. take n (unread c ++ (src ++ tail))) e
    ∙ take-append_add (c.write_index - c.read_index) (length src) (unread c) (src ++ tail) m
    ∙ ap (λ xs. unread c ++ xs) (take-append src tail (length src) refl)

filled-Inv :
    (c : Buffer) (src : List ℕ)
    → Inv c
    → c.write_index + length src ≤ length c.bytes
    → Inv (filled c src)
filled-Inv c src v h =
    let n = length-filled c src h in
    record {
      ordered = omega (arith, v.ordered);
      within = omega arith;
      small = omega (arith, v.small);
    }

-- `append` to a valid buffer, which with the new bytes stays below 2 ^ 62 bytes, succeeds and leaves
-- a valid buffer; the unread bytes are those that were there and then the new ones, and the vector
-- grows by no more than their number.
pub append-unread :
    (b : Buffer) (src : List ℕ)
    → Inv b
    → length b.bytes + length src < 2 ^ 62
    → (c : Buffer) × (append b src ≡ some c)
      × Inv c
      × (unread c ≡ unread b ++ src)
      × (length c.bytes ≤ length b.bytes + length src)
unfolding append
append-unread b src v h =
    let (c, e, r) = ensure_writeable-Ready b (length src) v h in
    (
      filled c src,
      rw (e, append),
      filled-Inv c src r.valid r.room,
      unread-filled c src r.valid r.room ∙ ap (λ xs. xs ++ src) r.same,
      omega (arith, length-filled c src r.room, r.grown),
    )

-- `retrieve` drops the first `len` unread bytes, all of them if there are fewer.
pub retrieve-unread :
    (b : Buffer) (len : ℕ)
    → Inv b
    → Inv (retrieve b len) × (unread (retrieve b len) ≡ drop len (unread b))
unfolding retrieve
retrieve-unread b len v =
    let n = length-unread b v in
    elim (Bool-cases (ltb (readable b) len)) [
      | inl past ↦
          rw (past, retrieve)
            (
              record { ordered = omega arith; within = omega arith; small = v.small },
              sym (drop_all len (unread b) (ground (arith, v.ordered, v.within, v.small))),
            )
      | inr part ↦
          let le : len ≤ b.write_index - b.read_index =
            ground (arith, v.ordered, v.within, v.small) in
          let k : b.write_index - (b.read_index + len) ≡ b.write_index - b.read_index - len =
            omega arith in
          rw (part, retrieve)
            (
              record { ordered = omega (arith, v.ordered); within = v.within; small = v.small },
              ap (λ m. take m (drop (b.read_index + len) b.bytes)) k
                  ∙ ap (take (b.write_index - b.read_index - len))
                      (sym (drop-drop len b.read_index b.bytes))
                  ∙ sym (drop-take len (b.write_index - b.read_index) (drop b.read_index b.bytes)),
            )
    ]

-- `read` from a descriptor appends what it delivers, and nothing on an error.
pub read_fd-unread :
    (b : Buffer) (len : ℕ) (got : List ℕ)
    → Inv b
    → length b.bytes + len < 2 ^ 62
    → length got ≤ len
    → (c : Buffer) × (read_fd b len (some got) ≡ some (some (length got), c))
      × Inv c
      × (unread c ≡ unread b ++ got)
unfolding read_fd
read_fd-unread b len got v h fits =
    let (c, e, r) = ensure_writeable-Ready b len v h in
    let t : ltb len (length got) ≡ false = ground arith in
    let room : c.write_index + length got ≤ length c.bytes = omega (arith, r.room) in
    (
      filled c got,
      rw (e, read_fd, t),
      filled-Inv c got r.valid room,
      unread-filled c got r.valid room ∙ ap (λ xs. xs ++ got) r.same,
    )

pub length-retrieve : (b : Buffer) (len : ℕ) → length (retrieve b len).bytes ≡ length b.bytes
unfolding retrieve
length-retrieve b len = ground arith

pub retrieve_all-unread :
    (b : Buffer) → Inv b → Inv (retrieve_all b) × (length (retrieve_all b).bytes ≡ length b.bytes)
unfolding retrieve_all
retrieve_all-unread b v =
    (record { ordered = omega arith; within = omega arith; small = v.small }, refl)

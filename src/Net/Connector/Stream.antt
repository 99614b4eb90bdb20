-- ===== src/Net/Connector/Stream.antt =====
-- net/connector.cc: what goes out is what was written, in order.
use sails.Prelude.Ints.{is_positive_int}
use sails.Prelude.{
  ℕ, zero, suc, ◌+◌, ◌^◌, ◌<◌, ◌≤◌, ◌≡◌, refl, sym, ap, ◌∙◌, true, Option, none, some, List, [],
  ◌∷◌, ◌++◌, ltb, length, take, arith, Bool-cases, inl, inr, take-append-drop, length-append,
}
use mathlib.Core.List.{append-nil, append_assoc}
use sails.Base.Buffer.{readable, unread}
use sails.Base.Buffer.Contents.{Inv, append-unread, retrieve-unread, length-retrieve, length-unread}
use sails.Net.Connector.{Connector, is_open, write, send}

-- What the handling side does with a connection: it writes, and it sends with some outcome.
pub data Io : Type 0 where
  writes : List ℕ → Io
  sends : Option ℕ → Io

-- The bytes that went to the descriptor, and the connection.
pub run : Connector → List Io → Option (List ℕ × Connector)
run c [] = some ([], c)
run c (writes xs ∷ ops) = elim (write c xs) [ none ↦ none | some d ↦ run d ops ]
run c (sends accepted ∷ ops) = elim (run (send c accepted).2 ops) [
  | none ↦ none
  | some (out, d) ↦ some ((send c accepted).1 ++ out, d)
]

abbrev pub written : List Io → List ℕ
written [] = []
written (writes xs ∷ ops) = xs ++ written ops
written (sends _ ∷ ops) = written ops

-- One operation keeps the connection open, and the bytes that are out or still to go are those that
-- were to go before, and the new ones.
pub record Kept (c : Connector) (out : List ℕ) (more : List ℕ) (d : Connector) : Type 0 where
  pub valid : Inv d.out_buf
  pub still_open : is_open d ≡ true
  pub stream : out ++ unread d.out_buf ≡ unread c.out_buf ++ more
  pub grown : length d.out_buf.bytes ≤ length c.out_buf.bytes + length more

pub write-Kept :
    (c : Connector) (xs : List ℕ)
    → Inv c.out_buf
    → is_open c ≡ true
    → length c.out_buf.bytes + length xs < 2 ^ 62
    → (d : Connector) × (write c xs ≡ some d) × Kept c [] xs d
unfolding write
write-Kept c [] v o h = (
  c,
  refl,
  record {
    valid = v;
    still_open = o;
    stream = sym (append-nil (unread c.out_buf));
    grown = omega arith;
  },
)
write-Kept c (x ∷ xs) v o h =
    let (b, e, w, u, g) = append-unread c.out_buf (x ∷ xs) v h in
    (
      record c { out_buf = b },
      rw (e, write),
      record { valid = w; still_open = o; stream = u; grown = g },
    )

idle-Kept : (c : Connector) → Inv c.out_buf → is_open c ≡ true → Kept c [] [] c
idle-Kept c v o = record {
  valid = v;
  still_open = o;
  stream = sym (append-nil (unread c.out_buf));
  grown = omega arith;
}

pub send-Kept :
    (c : Connector) (accepted : Option ℕ)
    → Inv c.out_buf
    → is_open c ≡ true
    → Kept c (send c accepted).1 [] (send c accepted).2
unfolding send
send-Kept c none v o = elim (Bool-cases (is_positive_int (readable c.out_buf))) [
  | inl some_left ↦ rw (o, some_left, send) (idle-Kept c v o)
  | inr none_left ↦ rw (o, none_left, send) (idle-Kept c v o)
]
send-Kept c (some zero) v o = elim (Bool-cases (is_positive_int (readable c.out_buf))) [
  | inl some_left ↦ rw (o, some_left, send) (idle-Kept c v o)
  | inr none_left ↦ rw (o, none_left, send) (idle-Kept c v o)
]
send-Kept c (some (suc n)) v o = elim (Bool-cases (is_positive_int (readable c.out_buf))) [
  | inl some_left ↦
      let (w, u) = retrieve-unread c.out_buf (suc n) v in
      let positive : ltb 0 (suc n) ≡ true = ground arith in
      rw (o, some_left, positive, send)
        (record {
          valid = w;
          still_open = o;
          stream =
              ap (λ xs. take (suc n) (unread c.out_buf) ++ xs) u
              ∙ take-append-drop (suc n) (unread c.out_buf)
              ∙ sym (append-nil (unread c.out_buf));
          grown = omega (arith, length-retrieve c.out_buf (suc n));
        })
  | inr none_left ↦ rw (o, none_left, send) (idle-Kept c v o)
]

-- What `::write` takes of the bytes, by what it returns.
abbrev pub taken_by : Option ℕ → List ℕ → List ℕ
taken_by none xs = []
taken_by (some n) xs = take n xs

none_left-take : (n : ℕ) (xs : List ℕ) → length xs ≡ 0 → [] ≡ take n xs
none_left-take zero [] h = refl
none_left-take (suc n) [] h = refl
none_left-take n (x ∷ xs) h = absurd (omega arith)

-- Fewer than 2 ^ 31 bytes are all offered to `::write`.
pub send-taken_by :
    (c : Connector) (accepted : Option ℕ)
    → Inv c.out_buf
    → is_open c ≡ true
    → length (unread c.out_buf) < 2 ^ 31
    → (send c accepted).1 ≡ taken_by accepted (unread c.out_buf)
unfolding send
send-taken_by c accepted v o h = elim (Bool-cases (is_positive_int (readable c.out_buf))) [
  | inl some_left ↦ by_answer accepted some_left
  | inr none_left ↦
      let z : length (unread c.out_buf) ≡ 0 = ground (arith, length-unread c.out_buf v) in
      rw (o, none_left, send) (nothing accepted z)
]
  where
    by_answer :
        (a : Option ℕ)
        → is_positive_int (readable c.out_buf) ≡ true
        → (send c a).1 ≡ taken_by a (unread c.out_buf)
    by_answer none p = rw (o, p, send) refl
    by_answer (some n) p = rw (o, p, send) refl

    nothing : (a : Option ℕ) → length (unread c.out_buf) ≡ 0 → [] ≡ taken_by a (unread c.out_buf)
    nothing none z = refl
    nothing (some n) z = none_left-take n (unread c.out_buf) z

-- Whatever the writes, and whatever part of its bytes each send gets rid of, an open connection with
-- a valid output buffer, which with all that is written stays below 2 ^ 62 bytes, stays open and
-- never faults, its output buffer stays valid, and the bytes that went out followed by those that are still to go
-- are the bytes that were to go at first followed by those that were written, in order.
pub run-written :
    (c : Connector) (ops : List Io)
    → Inv c.out_buf
    → is_open c ≡ true
    → length c.out_buf.bytes + length (written ops) < 2 ^ 62
    → (out : List ℕ) × (d : Connector) × (run c ops ≡ some (out, d))
      × Inv d.out_buf
      × (is_open d ≡ true)
      × (out ++ unread d.out_buf ≡ unread c.out_buf ++ written ops)
unfolding run
run-written c [] v o h = ([], c, refl, v, o, sym (append-nil (unread c.out_buf)))
run-written c (writes xs ∷ ops) v o h =
    let n = length-append xs (written ops) in
    let (d, e, k) = write-Kept c xs v o (omega arith) in
    let (out, f, r, w, p, s) = run-written d ops k.valid k.still_open (omega (arith, k.grown)) in
    (
      out,
      f,
      rw (e, run) r,
      w,
      p,
      s ∙ ap (λ ys. ys ++ written ops) k.stream ∙ append_assoc (unread c.out_buf) xs (written ops),
    )
run-written c (sends accepted ∷ ops) v o h =
    let k = send-Kept c accepted v o in
    let (out, f, r, w, p, s) =
      run-written (send c accepted).2 ops k.valid k.still_open (omega (arith, k.grown)) in
    (
      (send c accepted).1 ++ out,
      f,
      rw (r, run) refl,
      w,
      p,
      append_assoc (send c accepted).1 out (unread f.out_buf)
          ∙ ap (λ ys. (send c accepted).1 ++ ys) s
          ∙ sym
              (append_assoc (send c accepted).1 (unread (send c accepted).2.out_buf) (written ops))
          ∙ ap (λ ys. ys ++ written ops) (k.stream ∙ append-nil (unread c.out_buf)),
    )

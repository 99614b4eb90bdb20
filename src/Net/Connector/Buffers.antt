-- ===== src/Net/Connector/Buffers.antt =====
-- net/connector.cc: the output buffer through the operations, of an open connection or a closed one.
use sails.Prelude.Ints.{is_positive_int}
use sails.Prelude.{
  ℕ, zero, suc, ◌+◌, ◌^◌, ◌<◌, ◌≤◌, ◌≡◌, refl, true, Option, none, some, List, [], ◌∷◌, ◌++◌, sym,
  ltb, length, arith, Bool-cases, inl, inr,
}
use mathlib.Core.List.{append-nil}
use sails.Base.Buffer
use sails.Base.Buffer.{Buffer, readable, unread, retrieve_all}
use sails.Base.Buffer.Contents.{
  Inv, append-unread, retrieve-unread, retrieve_all-unread, length-retrieve,
}
use sails.Net.Connector.{Connector, is_open, write, send, close, retrieve}

-- `d` is `c` but for its output buffer.
pub record Same (c d : Connector) : Type 0 where
  pub same_id : d.id ≡ c.id
  pub same_ip : d.ip ≡ c.ip
  pub same_port : d.port ≡ c.port
  pub same_fd : d.connect_fd ≡ c.connect_fd
  pub same_closed : d.is_closed ≡ c.is_closed
  pub same_ext : d.ext_data ≡ c.ext_data
  pub same_in : d.in_buf ≡ c.in_buf

Same-out : (c : Connector) (b : Buffer) → Same c (record c { out_buf = b })
Same-out c b = record {
  same_id = refl;
  same_ip = refl;
  same_port = refl;
  same_fd = refl;
  same_closed = refl;
  same_ext = refl;
  same_in = refl;
}

-- What `write` does: the bytes are behind those that were there.
pub record Wrote (c : Connector) (xs : List ℕ) (d : Connector) : Type 0 where
  pub same : Same c d
  pub valid : Inv d.out_buf
  pub added : unread d.out_buf ≡ unread c.out_buf ++ xs
  pub grown : length d.out_buf.bytes ≤ length c.out_buf.bytes + length xs

pub write-Wrote :
    (c : Connector) (xs : List ℕ)
    → Inv c.out_buf
    → length c.out_buf.bytes + length xs < 2 ^ 62
    → (d : Connector) × (write c xs ≡ some d) × Wrote c xs d
unfolding write
write-Wrote c [] v h = (
  c,
  refl,
  record {
    same = Same-out c c.out_buf;
    valid = v;
    added = sym (append-nil (unread c.out_buf));
    grown = omega arith;
  },
)
write-Wrote c (x ∷ xs) v h =
    let (b, e, w, u, g) = append-unread c.out_buf (x ∷ xs) v h in
    (
      record c { out_buf = b },
      rw (e, write),
      record { same = Same-out c b; valid = w; added = u; grown = g },
    )

-- What `send` leaves.
pub record Left (c d : Connector) : Type 0 where
  pub same : Same c d
  pub valid : Inv d.out_buf
  pub size : length d.out_buf.bytes ≡ length c.out_buf.bytes

Left-self : (c : Connector) → Inv c.out_buf → Left c c
Left-self c v = record { same = Same-out c c.out_buf; valid = v; size = refl }

Left-retrieve :
    (c : Connector) (n : ℕ)
    → Inv c.out_buf
    → Left c (record c { out_buf = Buffer.retrieve c.out_buf n })
Left-retrieve c n v = record {
  same = Same-out c (Buffer.retrieve c.out_buf n);
  valid = (retrieve-unread c.out_buf n v).0;
  size = length-retrieve c.out_buf n;
}

pub send-Left : (c : Connector) (accepted : Option ℕ) → Inv c.out_buf → Left c (send c accepted).2
unfolding send
send-Left c accepted v = elim (Bool-cases (is_open c)) [
  | inr shut ↦
      rw (shut, send)
        (record {
          same = Same-out c (retrieve_all c.out_buf);
          valid = (retrieve_all-unread c.out_buf v).0;
          size = (retrieve_all-unread c.out_buf v).1;
        })
  | inl opened ↦ elim (Bool-cases (is_positive_int (readable c.out_buf))) [
    | inr none_left ↦ rw (opened, none_left, send) (Left-self c v)
    | inl some_left ↦ sent accepted opened some_left
  ]
]
  where
    sent :
        (a : Option ℕ)
        → is_open c ≡ true
        → is_positive_int (readable c.out_buf) ≡ true
        → Left c (send c a).2
    sent none o l = rw (o, l, send) (Left-self c v)
    sent (some zero) o l = rw (o, l, send) (Left-self c v)
    sent (some (suc n)) o l =
        let p : ltb 0 (suc n) ≡ true = ground arith in
        rw (o, l, p, send) (Left-retrieve c (suc n) v)

-- `close` keeps everything but the mark.
pub close-same :
    (c : Connector)
    → ((close c).1.connect_fd ≡ c.connect_fd)
      × ((close c).1.out_buf ≡ c.out_buf)
      × ((close c).0 ≡ is_open c)
unfolding close
close-same c = elim (Bool-cases (is_open c)) [
  | inl opened ↦ rw (opened, close) (refl, refl, refl)
  | inr shut ↦ rw (shut, close) (refl, refl, refl)
]

-- `retrieve` keeps everything but the input buffer.
pub retrieve-same :
    (c : Connector) (n : ℕ)
    → ((retrieve c n).connect_fd ≡ c.connect_fd)
      × ((retrieve c n).in_buf ≡ Buffer.retrieve c.in_buf n)
unfolding retrieve
retrieve-same c n = (refl, refl)

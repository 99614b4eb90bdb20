-- ===== src/Game/Parse/Frames.antt =====
-- example/gameserver/server.cc: the packets are the bytes of the connection, cut in order.
use sails.Prelude.{
  if◌then◌else◌, ℕ, ◌+◌, ◌<◌, ◌≤◌, ◌≡◌, refl, sym, ap, ◌∙◌, Bool, false, Option, some, List, [],
  ◌∷◌, ◌++◌, ◌==◌, arith, length, take, drop, length-append, length-take, take-append-drop,
}
use sails.Prelude.Words.{u32}
use sails.Base.Buffer.{unread}
use sails.Base.Buffer.Contents
use sails.Base.Buffer.Contents.{retrieve-unread}
use sails.Net.Connector.{Connector, retrieve}
use sails.Net.Connector.Buffers.{retrieve-same}
use sails.Net.EpollServer.Parsing.{Parser}
use sails.Game.Parse.{
  Verdict, takes, drops, waits, invalid, sized, game_data, len_of, int_of, verdict, apply, parse,
  login_size, connect_size, chat_size,
}

-- How long a packet is, by its first byte; the head of a game packet says how long the rest is.
unfoldable pub wire_size : List ℕ → ℕ
wire_size [] = 0
wire_size (op ∷ rest) =
    if op == 111
    then 244
    else if op == 2
    then 9
    else if op == 7
    then 65
    else if op == 100
    then 26 + int_of (drop 21 rest)
    else 1

sized-takes : (k n : ℕ) (bs : List ℕ) → sized k bs ≡ takes n → (n ≡ k) × (n ≤ length bs)
sized-takes k n bs e = ground arith

game_data-takes :
    (n : ℕ) (bs : List ℕ)
    → game_data bs ≡ takes n
    → (0 < n) × (n ≤ length bs) × (n ≡ 26 + len_of bs)
game_data-takes n bs e = ground (arith, sized-takes (26 + len_of bs) n bs)

-- A packet that `Parse` finds has the size of its kind, and lies in the bytes that have arrived.
pub verdict-takes :
    (state n op : ℕ) (rest : List ℕ)
    → verdict state (op ∷ rest) ≡ takes n
    → (0 < n) × (n ≤ length (op ∷ rest)) × (n ≡ wire_size (op ∷ rest))
unfolding verdict wire_size
verdict-takes state n op rest e = ground (
  arith,
  sized-takes login_size n (op ∷ rest),
  sized-takes connect_size n (op ∷ rest),
  sized-takes chat_size n (op ∷ rest),
  game_data-takes n (op ∷ rest),
)

-- What `Parse` did when it gives a packet.
pub record Framed (c : Connector) (p : List ℕ) (d : Connector) : Type 0 where
  pub cut : p ++ unread d.in_buf ≡ unread c.in_buf
  pub some_bytes : 0 < length p
  pub whole : length p ≡ wire_size (unread c.in_buf)
  pub valid : Contents.Inv d.in_buf
  pub same_fd : d.connect_fd ≡ c.connect_fd

with_flag :
    (r : Option (List ℕ) × Connector × Bool) (p : List ℕ) (d : Connector)
    → ◌≡◌ {A = Option (List ℕ) × Connector} (r.0, r.1) (some p, d)
    → r ≡ (some p, d, r.2)
with_flag (o, x, b) p d e = ap (λ z. (z.0, z.1, b)) e

module _ (get_player_state : ℕ → ℕ) (c d : Connector) (p : List ℕ) (killed : Bool) where
  takes-Framed :
      (n : ℕ)
      → Contents.Inv c.in_buf
      → 0 < n
      → n ≤ length (unread c.in_buf)
      → n ≡ wire_size (unread c.in_buf)
      → apply c (takes n) ≡ (some p, d, killed)
      → Framed c p d × (killed ≡ false)
  unfolding apply
  takes-Framed n v positive inside whole e =
      let q : take n (unread c.in_buf) ≡ p = ground arith in
      let r : retrieve c n ≡ d = ap (λ x. x.1) e in
      let (same, buf) = retrieve-same c n in
      let (w, u) = retrieve-unread c.in_buf n v in
      (
        rw (← q, ← r)
            (record {
              cut =
                  ap (λ b. take n (unread c.in_buf) ++ unread b) buf
                  ∙ ap (λ xs. take n (unread c.in_buf) ++ xs) u
                  ∙ take-append-drop n (unread c.in_buf);
              some_bytes = omega (arith, length-take n (unread c.in_buf));
              whole = omega (arith, length-take n (unread c.in_buf));
              valid = rw buf w;
              same_fd = same;
            }),
        ground arith,
      )

  by_verdict :
      (v : Verdict)
      → verdict (get_player_state (u32 c.ext_data)) (unread c.in_buf) ≡ v
      → apply c v ≡ (some p, d, killed)
      → (n : ℕ) × (v ≡ takes n)
  unfolding apply
  by_verdict (takes n) q e = (n, refl)
  by_verdict (drops n) q e = absurd (ground arith)
  by_verdict waits q e = absurd (ground arith)
  by_verdict invalid q e = absurd (ground arith)

  -- On a valid input buffer, a packet that `Parse` gives is the first of the unread bytes, and as
  -- many of them as a packet with that first byte has, at least one; what is
  -- left is the rest of them, the buffer is valid, and nobody is killed off.
  pub parse-Framed :
      Contents.Inv c.in_buf
      → parse get_player_state c ≡ (some p, d, killed)
      → Framed c p d × (killed ≡ false)
  unfolding parse verdict
  parse-Framed v e =
      let s = get_player_state (u32 c.ext_data) in
      let (n, q) = by_verdict (verdict s (unread c.in_buf)) refl e in
      let (positive, inside, whole) = there n (unread c.in_buf) q in
      takes-Framed n v positive inside whole (ap (apply c) (sym q) ∙ e)
    where
      there :
          (n : ℕ) (bs : List ℕ)
          → verdict (get_player_state (u32 c.ext_data)) bs ≡ takes n
          → (0 < n) × (n ≤ length bs) × (n ≡ wire_size bs)
      there n [] q = absurd (ground arith)
      there n (op ∷ rest) q = verdict-takes (get_player_state (u32 c.ext_data)) n op rest q

-- `Parse` as `ParseImp` calls it.
abbrev pub packet_of : (ℕ → ℕ) → Connector → Option (List ℕ) × Connector
packet_of get_player_state c = ((parse get_player_state c).0, (parse get_player_state c).1)

-- The game server keeps to what `ParseImp` needs to come to an end: with each packet, `Parse` takes
-- bytes from a valid buffer and leaves it valid, and it stays on the connection.
pub packet_of-Parser : (get_player_state : ℕ → ℕ) → Parser (packet_of get_player_state)
packet_of-Parser g = record {
  consumes = λ c d p v e.
      let f = (parse-Framed g c d p (parse g c).2 v (with_flag (parse g c) p d e)).0 in
      (omega (arith, f.some_bytes, length-append p (unread d.in_buf), ap length f.cut), f.valid);
  keeps_fd =
      λ c d p v e. (parse-Framed g c d p (parse g c).2 v (with_flag (parse g c) p d e)).0.same_fd;
}

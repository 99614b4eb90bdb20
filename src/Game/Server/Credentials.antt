-- ===== src/Game/Server/Credentials.antt =====
-- example/gameserver/server.cc and game_packets.h: the parts of a login packet, and which are valid.
use sails.Prelude.{
  ℕ, zero, suc, ◌<◌, ◌≤◌, ◌≡◌, ◌≢◌, ◌⊎◌, inl, inr, refl, sym, ap, ◌∙◌, subst, Bool, Bool-cases,
  true, false, ◌&&◌, none, some, List, [], ◌∷◌, ◌++◌, ◌==◌, arith, length, get_elem?,
}
use sails.Game.Parse.{opcode_login}
use sails.Game.Fields.{byte_at, c_str, is_code_char, is_product_code, is_session}

-- A packet is an opcode, a mac, a name, a code of a game and a session, each of its size.
pub record LoginParts (packet mac name game session : List ℕ) : Type 0 where
  pub cut : packet ≡ opcode_login ∷ (mac ++ (name ++ (game ++ session)))
  pub mac_size : length mac ≡ 6
  pub name_size : length name ≡ 128
  pub game_size : length game ≡ 9
  pub session_size : length session ≡ 100

-- The session holds the token up to its first zero.
pub record Holds (session token : List ℕ) : Type 0 where
  pub rest : List ℕ
  pub cut : session ≡ token ++ 0 ∷ rest
  pub no_zero : (i : ℕ) → get_elem? token i ≢ some 0

-- What a login has to have: capital letters and digits in the code, a mac of not only ones or
-- zeros, a name, and a token of 32 bytes.
pub record Valid (mac name game session : List ℕ) : Type 0 where
  pub code : (i c : ℕ) → get_elem? game i ≡ some c → ((65 ≤ c) × (c ≤ 90)) ⊎ ((48 ≤ c) × (c ≤ 57))
  pub not_ones : mac ≢ 255 ∷ 255 ∷ 255 ∷ 255 ∷ 255 ∷ 255 ∷ []
  pub not_zeros : mac ≢ 0 ∷ 0 ∷ 0 ∷ 0 ∷ 0 ∷ 0 ∷ []
  pub named : get_elem? name 0 ≢ some 0
  pub token : (t : List ℕ) × (length t ≡ 32) × Holds session t

is_code_char-range : (c : ℕ) → is_code_char c ≡ true → ((65 ≤ c) × (c ≤ 90)) ⊎ ((48 ≤ c) × (c ≤ 57))
is_code_char-range c e = ground (arith, e)

range-is_code_char : (c : ℕ) → ((65 ≤ c) × (c ≤ 90)) ⊎ ((48 ≤ c) × (c ≤ 57)) → is_code_char c ≡ true
range-is_code_char c (inl h) = ground (arith, h)
range-is_code_char c (inr h) = ground (arith, h)

and_left : (a b : Bool) → (a && b) ≡ true → a ≡ true
and_left a b e = ground (arith, e)

and_right : (a b : Bool) → (a && b) ≡ true → b ≡ true
and_right a b e = ground (arith, e)

pub code-range :
    (game : List ℕ) (i c : ℕ)
    → is_product_code game ≡ true
    → get_elem? game i ≡ some c
    → ((65 ≤ c) × (c ≤ 90)) ⊎ ((48 ≤ c) × (c ≤ 57))
code-range [] i c e h = absurd (ground (arith, h))
code-range (x ∷ xs) zero c e h = is_code_char-range c (
    ap is_code_char (sym (ap (λ o. elim o [ none ↦ 0 | some y ↦ y ]) h))
    ∙ and_left (is_code_char x) (is_product_code xs) e)
code-range (x ∷ xs) (suc i) c e h =
    code-range xs i c (and_right (is_code_char x) (is_product_code xs) e) h

pub range-code :
    (game : List ℕ)
    → ((i c : ℕ) → get_elem? game i ≡ some c → ((65 ≤ c) × (c ≤ 90)) ⊎ ((48 ≤ c) × (c ≤ 57)))
    → is_product_code game ≡ true
range-code [] h = refl
range-code (x ∷ xs) h =
    rw (range-is_code_char x (h 0 x refl)) (range-code xs (λ i c e. h (suc i) c e))

-- A code without a zero is its own string.
pub c_str-code :
    (game : List ℕ)
    → ((i c : ℕ) → get_elem? game i ≡ some c → ((65 ≤ c) × (c ≤ 90)) ⊎ ((48 ≤ c) × (c ≤ 57)))
    → c_str game ≡ game
c_str-code [] h = refl
c_str-code (x ∷ xs) h =
    let k : (x == 0) ≡ false = ground (arith, range-is_code_char x (h 0 x refl)) in
    rw (k) (ap (λ z. x ∷ z) (c_str-code xs (λ i c e. h (suc i) c e)))

c_str-end : (x : ℕ) (xs : List ℕ) → (x == 0) ≡ true → c_str (x ∷ xs) ≡ []
c_str-end x xs e = rw (e) refl

c_str-next : (x : ℕ) (xs : List ℕ) → (x == 0) ≡ false → c_str (x ∷ xs) ≡ x ∷ c_str xs
c_str-next x xs e = rw (e) refl

cons-no_zero :
    (x : ℕ) (xs : List ℕ)
    → (x == 0) ≡ false
    → ((i : ℕ) → get_elem? xs i ≢ some 0)
    → (i : ℕ) → get_elem? (x ∷ xs) i ≢ some 0
cons-no_zero x xs nz h zero e = absurd (ground (arith, nz, e))
cons-no_zero x xs nz h (suc i) e = h i e

-- A string that ends inside its field is what the field holds.
pub c_str-Holds : (s : List ℕ) → length (c_str s) < length s → Holds s (c_str s)
c_str-Holds [] h = elim h [ ]
c_str-Holds (x ∷ xs) h = elim (Bool-cases (x == 0)) [
  | inl z ↦
      let zero_x : x ≡ 0 = ground (arith, z) in
      subst (Holds (x ∷ xs)) (sym (c_str-end x xs z)) (record {
        rest = xs;
        cut = ap (λ y. y ∷ xs) zero_x;
        no_zero = λ i e. absurd (ground (arith, e));
      })
  | inr nz ↦
      let k : c_str (x ∷ xs) ≡ x ∷ c_str xs = c_str-next x xs nz in
      let later = c_str-Holds xs (omega (arith, h, ap length k)) in
      subst (Holds (x ∷ xs)) (sym k) (record {
        rest = later.rest;
        cut = ap (λ y. x ∷ y) later.cut;
        no_zero = cons-no_zero x (c_str xs) nz later.no_zero;
      })
]

pub no_zero-c_str :
    (t rest : List ℕ) → ((i : ℕ) → get_elem? t i ≢ some 0) → c_str (t ++ 0 ∷ rest) ≡ t
no_zero-c_str [] rest h = refl
no_zero-c_str (x ∷ xs) rest h = elim (Bool-cases (x == 0)) [
  | inl z ↦ absurd (h 0 (ap (λ y. some y) (ground (arith, z))))
  | inr nz ↦
      c_str-next x (xs ++ 0 ∷ rest) nz
      ∙ ap (λ y. x ∷ y) (no_zero-c_str xs rest (λ i e. h (suc i) e))
]

pub byte_at-append : (xs ys : List ℕ) (n : ℕ) → n ≡ length xs → byte_at n (xs ++ ys) ≡ byte_at 0 ys
byte_at-append [] ys zero e = refl
byte_at-append [] ys (suc n) e = absurd (omega arith)
byte_at-append (x ∷ xs) ys zero e = absurd (omega arith)
byte_at-append (x ∷ xs) ys (suc n) e = byte_at-append xs ys n (omega arith)

pub byte_at-zero : (xs ys : List ℕ) → 0 < length xs → byte_at 0 (xs ++ ys) ≡ byte_at 0 xs
byte_at-zero [] ys h = elim h [ ]
byte_at-zero (x ∷ xs) ys h = refl

-- The test of the session.
pub Holds-is_session :
    (session t : List ℕ) → length t ≡ 32 → Holds session t → is_session session ≡ true
Holds-is_session session [] n h = absurd (omega arith)
Holds-is_session session (x ∷ xs) n h =
    let whole : length (c_str session) ≡ 32 =
      ap (λ s. length (c_str s)) h.cut ∙ ap length (no_zero-c_str (x ∷ xs) h.rest h.no_zero) ∙ n in
    let first : byte_at 0 session ≡ x = ap (byte_at 0) h.cut in
    let last : byte_at 32 session ≡ 0 =
      ap (byte_at 32) h.cut ∙ byte_at-append (x ∷ xs) (0 ∷ h.rest) 32 (sym n) in
    let some_x : (x == 0) ≡ false = elim (Bool-cases (x == 0)) [
      | inl z ↦ absurd (h.no_zero 0 (ap (λ y. some y) (ground (arith, z))))
      | inr nz ↦ nz
    ] in
    rw (first, last, whole, some_x) refl

pub is_session-Holds :
    (session : List ℕ)
    → length session ≡ 100
    → is_session session ≡ true
    → (length (c_str session) ≡ 32) × Holds session (c_str session)
is_session-Holds session n e =
    let whole : length (c_str session) ≡ 32 = ground (arith, e) in
    (whole, c_str-Holds session (omega (arith, whole, n)))

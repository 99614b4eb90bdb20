-- ===== src/Game/Server/Parts.antt =====
-- example/gameserver/server.cc: the fields that the login of a player reads are the parts of its packet.
use sails.Prelude.{
  ℕ, ◌<◌, ◌≡◌, ◌≢◌, inl, inr, refl, sym, ap, ◌∙◌, Bool, Bool-cases, true, false, ◌&&◌, not, some,
  List, [], ◌∷◌, ◌++◌, ◌==◌, arith, length, length-append, get_elem?, take-append, drop-append,
  take, drop, take_all,
}
use sails.Prelude.Splits.{drop-drop}
use mathlib.Core.List.{append_assoc}
use sails.Game.Room.{same_bytes}
use sails.Game.Maps.{same_bytes_eq}
use sails.Game.Fields.{field, byte_at, c_str, is_product_code, is_mac, is_session, is_login}
use sails.Game.Server.Credentials.{
  LoginParts, Valid, code-range, range-code, is_session-Holds, Holds-is_session, byte_at-append,
  byte_at-zero,
}

four_tests :
    (a b c d : Bool)
    → (a && b && not c && d) ≡ true
    → (a ≡ true) × (b ≡ true) × (c ≡ false) × (d ≡ true)
four_tests false b c d e = cc
four_tests true false c d e = cc
four_tests true true true d e = cc
four_tests true true false false e = cc
four_tests true true false true e = (refl, refl, refl, refl)

false-true : false ≡ true → ⊥
false-true e = cc

first-ne : (name : List ℕ) → (byte_at 0 name == 0) ≡ false → get_elem? name 0 ≢ some 0
first-ne [] h e = cc
first-ne (x ∷ xs) h e = absurd (ground (arith, h, e))

named-first :
    (name : List ℕ) → 0 < length name → get_elem? name 0 ≢ some 0 → (byte_at 0 name == 0) ≡ false
named-first [] n h = elim n [ ]
named-first (x ∷ xs) n h = elim (Bool-cases (x == 0)) [
  | inl z ↦ absurd (h (ap (λ y. some y) (ground (arith, z))))
  | inr nz ↦ nz
]

other_bytes : (xs ys : List ℕ) → xs ≢ ys → same_bytes xs ys ≡ false
other_bytes xs ys h = elim (Bool-cases (same_bytes xs ys)) [
  | inl e ↦ absurd (h (same_bytes_eq xs ys e))
  | inr e ↦ e
]

other-is_mac :
    (mac : List ℕ)
    → mac ≢ 255 ∷ 255 ∷ 255 ∷ 255 ∷ 255 ∷ 255 ∷ []
    → mac ≢ 0 ∷ 0 ∷ 0 ∷ 0 ∷ 0 ∷ 0 ∷ []
    → is_mac mac ≡ true
other-is_mac mac f z =
    let a = other_bytes mac (255 ∷ 255 ∷ 255 ∷ 255 ∷ 255 ∷ 255 ∷ []) f in
    let b = other_bytes mac (0 ∷ 0 ∷ 0 ∷ 0 ∷ 0 ∷ 0 ∷ []) z in rw (a, b) refl

module _ (packet mac name game session : List ℕ) (l : LoginParts packet mac name game session) where
  pub mac-field : field 1 6 packet ≡ mac
  mac-field = ap (field 1 6) l.cut ∙ take-append mac (name ++ (game ++ session)) 6 (sym l.mac_size)

  after_name : drop 135 packet ≡ game ++ session
  after_name =
      ap (drop 135) l.cut
      ∙ ap (drop 134) (sym (append_assoc mac name (game ++ session)))
      ∙ drop-append (mac ++ name) (game ++ session) 134
          (omega (arith, l.mac_size, l.name_size, length-append mac name))

  pub game-field : field 135 9 packet ≡ game
  game-field = ap (take 9) after_name ∙ take-append game session 9 (sym l.game_size)

  drop_game : drop 144 packet ≡ session
  drop_game =
      sym (drop-drop 9 135 packet)
      ∙ ap (drop 9) after_name
      ∙ drop-append game session 9 (sym l.game_size)

  pub session-field : field 144 100 packet ≡ session
  session-field = ap (take 100) drop_game ∙ take_all 100 session (omega (arith, l.session_size))

  name-first : byte_at 7 packet ≡ byte_at 0 name
  name-first =
      ap (byte_at 7) l.cut
      ∙ byte_at-append mac (name ++ (game ++ session)) 6 (sym l.mac_size)
      ∙ byte_at-zero name (game ++ session) (omega (arith, l.name_size))

  -- The tests of `login_user_data` are those of a valid login.
  pub is_login-Valid : is_login packet ≡ true → Valid mac name game session
  unfolding is_login
  is_login-Valid e =
      let (code_test, mac_test, name_test, session_test) =
        four_tests (is_product_code (field 135 9 packet)) (is_mac (field 1 6 packet))
          (byte_at 7 packet == 0) (is_session (field 144 100 packet)) e in
      let (n, h) =
        is_session-Holds session l.session_size
          (sym (ap is_session session-field) ∙ session_test) in
      record {
        code = λ i c. code-range game i c (sym (ap is_product_code game-field) ∙ code_test);
        not_ones = λ m. false-true (sym (ap is_mac (mac-field ∙ m)) ∙ mac_test);
        not_zeros = λ m. false-true (sym (ap is_mac (mac-field ∙ m)) ∙ mac_test);
        named = λ z. first-ne name (ap (λ b. b == 0) (sym name-first) ∙ name_test) z;
        token = (c_str session, n, h);
      }

  pub Valid-is_login : Valid mac name game session → is_login packet ≡ true
  unfolding is_login
  Valid-is_login v =
      let (t, n, h) = v.token in
      let code_test : is_product_code (field 135 9 packet) ≡ true =
        ap is_product_code game-field ∙ range-code game v.code in
      let mac_test : is_mac (field 1 6 packet) ≡ true =
        ap is_mac mac-field ∙ other-is_mac mac v.not_ones v.not_zeros in
      let name_test : (byte_at 7 packet == 0) ≡ false =
        ap (λ b. b == 0) name-first ∙ named-first name (omega (arith, l.name_size)) v.named in
      let session_test : is_session (field 144 100 packet) ≡ true =
        ap is_session session-field ∙ Holds-is_session session t n h in
      rw (code_test, mac_test, name_test, session_test) refl

-- ===== src/Game/Room/Members.antt =====
-- example/gameserver/game_room.cc: who is in a room when players join and leave.
use sails.Prelude.{
  ℕ, ◌+◌, ◌≤◌, ◌≡◌, refl, sym, ◌∙◌, Bool, true, false, ◌&&◌, some, List, [], ◌∷◌, leb, ◌==◌,
  if◌then◌else◌, arith, Bool-cases, inl, inr,
}
use sails.Prelude.Counts.{count}
use sails.Game.Room.{
  Player, Players, find_player, update_player, insert_id, erase_id, has_id, age_loop, older,
}

-- The ids of a map, in order.
abbrev pub is_increasing_from : ℕ → List ℕ → Bool
is_increasing_from low [] = true
is_increasing_from low (x ∷ xs) = leb low x && is_increasing_from (x + 1) xs

-- A room whose pointers are to players of the server.
abbrev pub Live : Players → List ℕ → Type 0
Live players ids = (i : ℕ) → has_id i ids ≡ true → (p : Player) × (find_player i players ≡ some p)

pub has_id-insert_id :
    (i id : ℕ) (xs : List ℕ) → has_id i (insert_id id xs) ≡ (if i == id then true else has_id i xs)
unfolding has_id insert_id
has_id-insert_id i id [] = ground arith
has_id-insert_id i id (x ∷ xs) = ground (arith, has_id-insert_id i id xs)

pub insert_id-increasing :
    (low id : ℕ) (xs : List ℕ)
    → is_increasing_from low xs ≡ true
    → low ≤ id
    → is_increasing_from low (insert_id id xs) ≡ true
unfolding insert_id
insert_id-increasing low id [] h k = ground arith
insert_id-increasing low id (x ∷ xs) h k = ground (arith, insert_id-increasing (x + 1) id xs)

-- A new id that is erased again leaves the map as it was.
pub erase_id-insert_id :
    (id : ℕ) (xs : List ℕ) → has_id id xs ≡ false → erase_id id (insert_id id xs) ≡ xs
unfolding has_id insert_id erase_id
erase_id-insert_id id [] h = ground arith
erase_id-insert_id id (x ∷ xs) h = ground (arith, erase_id-insert_id id xs)

head_player :
    (i key : ℕ) (q p : Player) (ps : Players)
    → (key == i) ≡ true
    → find_player i ((key, q) ∷ ps) ≡ some p
    → q ≡ p
unfolding find_player
head_player i key q p ps k h =
    let e : some q ≡ some p = sym (rw (k, find_player) refl) ∙ h in ground arith

tail_player :
    (i key : ℕ) (q p : Player) (ps : Players)
    → (key == i) ≡ false
    → find_player i ((key, q) ∷ ps) ≡ some p
    → find_player i ps ≡ some p
unfolding find_player
tail_player i key q p ps k h = sym (rw (k, find_player) refl) ∙ h

pub find-update :
    (i id : ℕ) (f : Player → Player) (ps : Players) (p : Player)
    → find_player i ps ≡ some p
    → find_player i (update_player id f ps) ≡ some (if id == i then f p else p)
unfolding find_player update_player
find-update i id f [] p h = absurd (ground arith)
find-update i id f ((key, q) ∷ ps) p h = elim (Bool-cases (key == id)) [
  | inl changed ↦
      let c : key ≡ id = ground arith in
      elim (Bool-cases (id == i)) [
        | inl same ↦
            let k : (key == i) ≡ true = ground arith in
            let e : q ≡ p = head_player i key q p ps k h in rw (changed, same, k, e) refl
        | inr other ↦
            let k : (key == i) ≡ false = ground arith in
            rw (changed, other, k) (tail_player i key q p ps k h)
      ]
  | inr kept ↦ elim (Bool-cases (key == i)) [
    | inl here ↦
        let e : q ≡ p = head_player i key q p ps here h in
        let n : (id == i) ≡ false = ground arith in rw (kept, here, n, e) refl
    | inr there ↦ rw (kept, there) (find-update i id f ps p (tail_player i key q p ps there h))
  ]
]

-- A player after the loop over `keys`: as old as the number of its ids in it more, and else as
-- it was.
pub record Aged (i : ℕ) (keys : List ℕ) (p q : Player) : Type 0 where
  pub ages : q.age ≡ p.age + count i keys
  pub same_game : q.game_code ≡ p.game_code
  pub same_room : q.room_code ≡ p.room_code
  pub same_mac : q.mac ≡ p.mac
  pub same_ip : q.ip ≡ p.ip

Aged-nil : (i : ℕ) (p : Player) → Aged i [] p p
unfolding count
Aged-nil i p = record {
  ages = omega arith;
  same_game = refl;
  same_room = refl;
  same_mac = refl;
  same_ip = refl;
}

Aged-cons :
    (i x : ℕ) (xs : List ℕ) (p q : Player)
    → Aged i xs (if x == i then older p else p) q
    → Aged i (x ∷ xs) p q
unfolding count
Aged-cons i x xs p q a = elim (Bool-cases (x == i)) [
  | inl same ↦ record {
    ages = ground (arith, a.ages);
    same_game = ground (arith, a.same_game);
    same_room = ground (arith, a.same_room);
    same_mac = ground (arith, a.same_mac);
    same_ip = ground (arith, a.same_ip);
  }
  | inr other ↦ record {
    ages = ground (arith, a.ages);
    same_game = ground (arith, a.same_game);
    same_room = ground (arith, a.same_room);
    same_mac = ground (arith, a.same_mac);
    same_ip = ground (arith, a.same_ip);
  }
]

-- The loop does not fault where the pointers are live, and ages the players of its ids.
pub age_loop-Aged :
    (keys : List ℕ) (ps : Players)
    → Live ps keys
    → (qs : Players) × (age_loop keys ps ≡ some qs)
      × ((i : ℕ) (p : Player)
          → find_player i ps ≡ some p
          → (q : Player) × (find_player i qs ≡ some q) × Aged i keys p q)
unfolding age_loop has_id
age_loop-Aged [] ps live = (ps, refl, λ i p h. (p, h, Aged-nil i p))
age_loop-Aged (x ∷ xs) ps live =
    let (p, e) = live x (ground arith) in
    let (qs, f, all) = age_loop-Aged xs (update_player x older ps) (λ i h.
      let (r, g) = live i (ground arith) in
      (if x == i then older r else r, find-update i x older ps r g)) in
    (
      qs,
      rw (e, age_loop) f,
      λ i r h.
          let (q, g, a) = all i (if x == i then older r else r) (find-update i x older ps r h) in
          (q, g, Aged-cons i x xs r q a),
    )

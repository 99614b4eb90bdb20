-- ===== src/Game/Room/Host.antt =====
-- example/gameserver/game_room.cc: whose mac a player that joins is told, and what
-- `getRoomHostMac` says.
use sails.Prelude.{
  ℕ, ◌<◌, ◌≤◌, ◌≡◌, refl, sym, ap, ◌∙◌, true, none, some, List, [], ◌∷◌, ltb, ◌==◌, arith,
  Bool-cases, inl, inr,
}
use sails.Game.Room.{
  Player, Players, GameRoom, Sent, find_player, has_id, greet_loop, host_loop, get_room_host_mac,
  connects_of, connects,
}
use sails.Game.Room.Members.{Live}

-- What is sent to the members and to the one with an id who joins them: to each member, in order, the
-- name, mac and ip of the one, and then to him those of the member.
pub data Told (ps : Players) (id : ℕ) (own : Player) : List ℕ → List Sent → Type 0 where
  told_all : Told ps id own [] []
  told_both :
      (x : ℕ) (xs : List ℕ) (peer : Player) (sent : List Sent)
      → find_player x ps ≡ some peer
      → Told ps id own xs sent
      → Told ps id own (x ∷ xs) (
          record { to = x; packet = connects own.player_name own.mac own.ip }
          ∷ record { to = id; packet = connects peer.player_name peer.mac peer.ip }
          ∷ sent)

-- No player of the ids is older.
abbrev pub NoneOlder : Players → List ℕ → ℕ → Type 0
NoneOlder ps keys age =
    (j : ℕ) (q : Player) → has_id j keys ≡ true → find_player j ps ≡ some q → q.age ≤ age

-- The host that the loop ends with over `keys`, when it comes with one, of age `age`.
pub data Best (ps : Players) (keys : List ℕ) (host : List ℕ) (age : ℕ) : List ℕ → Type 0 where
  keeps : NoneOlder ps keys age → Best ps keys host age host
  beats :
      (k : ℕ) (p : Player)
      → has_id k keys ≡ true
      → find_player k ps ≡ some p
      → age < p.age
      → NoneOlder ps keys p.age
      → Best ps keys host age p.mac

-- The host of a room with the ids: the player himself in an empty room, else one that none is
-- older than.
pub data Host (ps : Players) (keys : List ℕ) (own : List ℕ) : List ℕ → Type 0 where
  alone : keys ≡ [] → Host ps keys own own
  oldest :
      (k : ℕ) (p : Player)
      → has_id k keys ≡ true
      → find_player k ps ≡ some p
      → NoneOlder ps keys p.age
      → Host ps keys own p.mac

head_or_rest :
    (ps : Players) (x age : ℕ) (xs : List ℕ) (p : Player)
    → find_player x ps ≡ some p
    → p.age ≤ age
    → NoneOlder ps xs age
    → NoneOlder ps (x ∷ xs) age
unfolding has_id
head_or_rest ps x age xs p e h rest j q m g = elim (Bool-cases (x == j)) [
  | inl same ↦
      let c : x ≡ j = ground arith in
      let r : some p ≡ some q = sym e ∙ ap (λ i. find_player i ps) c ∙ g in
      let s : p ≡ q = ground arith in omega (arith, ap (λ t. t.age) s)
  | inr other ↦ rest j q (ground arith) g
]

in_rest : (k x : ℕ) (xs : List ℕ) → has_id k xs ≡ true → has_id k (x ∷ xs) ≡ true
unfolding has_id
in_rest k x xs h = ground arith

pub in_head : (x : ℕ) (xs : List ℕ) → has_id x (x ∷ xs) ≡ true
unfolding has_id
in_head x xs = ground arith

Best-older :
    (ps : Players) (x age : ℕ) (xs host last : List ℕ) (p : Player)
    → find_player x ps ≡ some p
    → age < p.age
    → Best ps xs p.mac p.age last
    → Best ps (x ∷ xs) host age last
Best-older ps x age xs host last p e h (keeps all) =
    beats x p (in_head x xs) e h (head_or_rest ps x p.age xs p e (omega arith) all)
Best-older ps x age xs host last p e h (beats k q m f lt all) =
    beats k q (in_rest k x xs m) f (omega arith) (head_or_rest ps x q.age xs p e (omega arith) all)

Best-younger :
    (ps : Players) (x age : ℕ) (xs host last : List ℕ) (p : Player)
    → find_player x ps ≡ some p
    → p.age ≤ age
    → Best ps xs host age last
    → Best ps (x ∷ xs) host age last
Best-younger ps x age xs host last p e h (keeps all) = keeps (head_or_rest ps x age xs p e h all)
Best-younger ps x age xs host last p e h (beats k q m f lt all) =
    beats k q (in_rest k x xs m) f lt (head_or_rest ps x q.age xs p e (omega arith) all)

pub Live-rest : (ps : Players) (x : ℕ) (xs : List ℕ) → Live ps (x ∷ xs) → Live ps xs
Live-rest ps x xs live i h = live i (in_rest i x xs h)

-- What the two are sent about each other, and what follows.
abbrev greeting : ℕ → ℕ → Player → Player → List Sent → List Sent
greeting x id own p sent =
    record { to = x; packet = connects_of own } ∷ record { to = id; packet = connects_of p } ∷ sent

greet_loop-Best :
    (ps : Players) (id : ℕ) (own : Player) (xs host : List ℕ) (age : ℕ)
    → Live ps xs
    → (sent : List Sent) × (last : List ℕ) × (greet_loop ps id own xs host (some age)
        ≡ some (sent, last))
      × Told ps id own xs sent
      × Best ps xs host age last
unfolding greet_loop
greet_loop-Best ps id own [] host age live =
    ([], host, refl, told_all, keeps (λ j q m g. absurd (unfold has_id in ground arith)))
greet_loop-Best ps id own (x ∷ xs) host age live =
    let (p, e) = live x (in_head x xs) in
    elim (Bool-cases (ltb age p.age)) [
      | inl older ↦
          let (sent, last, f, n, b) =
            greet_loop-Best ps id own xs p.mac p.age (Live-rest ps x xs live) in
          (
            greeting x id own p sent,
            last,
            rw (e, older, f, greet_loop) refl,
            told_both x xs p sent e n,
            Best-older ps x age xs host last p e (ground arith) b,
          )
      | inr younger ↦
          let (sent, last, f, n, b) =
            greet_loop-Best ps id own xs host age (Live-rest ps x xs live) in
          (
            greeting x id own p sent,
            last,
            rw (e, younger, f, greet_loop) refl,
            told_both x xs p sent e n,
            Best-younger ps x age xs host last p e (ground arith) b,
          )
    ]

Best-Host :
    (ps : Players) (x : ℕ) (xs own last : List ℕ) (p : Player)
    → find_player x ps ≡ some p
    → Best ps xs p.mac p.age last
    → Host ps (x ∷ xs) own last
Best-Host ps x xs own last p e (keeps all) =
    oldest x p (in_head x xs) e (head_or_rest ps x p.age xs p e (omega arith) all)
Best-Host ps x xs own last p e (beats k q m f lt all) =
    oldest k q (in_rest k x xs m) f (head_or_rest ps x q.age xs p e (omega arith) all)

-- Where the pointers of a room are live, the first loop of `connectPlayer` does not fault; it sends
-- each player of the room the name, mac and ip of the one who joins and him those of each, and the host that it finds is the player himself in an
-- empty room, and else a player of the room that none is older than.
pub greet_loop-Host :
    (ps : Players) (id : ℕ) (player : Player) (keys : List ℕ)
    → Live ps keys
    → (sent : List Sent) × (host : List ℕ) × (greet_loop ps id player keys player.mac none
        ≡ some (sent, host))
      × Told ps id player keys sent
      × Host ps keys player.mac host
unfolding greet_loop
greet_loop-Host ps id player [] live = ([], player.mac, refl, told_all, alone refl)
greet_loop-Host ps id player (x ∷ xs) live =
    let (p, e) = live x (in_head x xs) in
    let (sent, host, f, n, b) =
      greet_loop-Best ps id player xs p.mac p.age (Live-rest ps x xs live) in
    (
      greeting x id player p sent,
      host,
      rw (e, f, greet_loop) refl,
      told_both x xs p sent e n,
      Best-Host ps x xs player.mac host p e b,
    )

host_step :
    (ps : Players) (x : ℕ) (xs mac : List ℕ) (p : Player)
    → find_player x ps ≡ some p
    → 0 < p.age
    → host_loop ps (x ∷ xs) mac ≡ host_loop ps xs p.mac
unfolding host_loop
host_step ps x xs mac p e h = let k : ltb 0 p.age ≡ true = ground arith in rw (e, k, host_loop) refl

-- `getRoomHostMac` of a room with two players, the ages of both above 0, answers the mac of the
-- one behind in the order of the ids where the one in front is the older.
pub get_room_host_mac-second :
    (ps : Players) (room : GameRoom) (a b : ℕ) (p q : Player)
    → room.player_map ≡ a ∷ b ∷ []
    → find_player a ps ≡ some p
    → find_player b ps ≡ some q
    → 0 < q.age
    → q.age < p.age
    → get_room_host_mac room ps ≡ some q.mac
unfolding get_room_host_mac host_loop
get_room_host_mac-second ps room a b p q m e f h k =
    ap (λ keys. host_loop ps keys []) m
    ∙ host_step ps a (b ∷ []) [] p e (omega arith)
    ∙ host_step ps b [] p.mac q f h

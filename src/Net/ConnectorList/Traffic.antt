-- ===== src/Net/ConnectorList/Traffic.antt =====
-- net/connector_list.cc: any order of the calls of a server thread.
use sails.Prelude.{
  ℕ, zero, suc, ◌<◌, ◌≤◌, ◌≡◌, refl, sym, ap, ◌∙◌, subst, bit_and, bit_or, true, Option, none, some,
  List, [], ◌∷◌, arith, ltb, leb, length, get_elem?, Bool-cases, inl, inr,
}
use sails.Prelude.Words.{dec64}
use sails.Prelude.Counts.{count, erase}
use sails.Base.PtrList.Invariant.{held}
use sails.Base.PtrList.Ownership.{empty_slot}
use sails.Net.Connector.{Connector}
use sails.Net.ConnectorList.{
  ConnectorList, Entry, take_front, get_uniq_id, add, refresh, del, check_timeout, slot_of,
  magic_mask, uid_mask,
}
use sails.Net.ConnectorList.Invariant.{Inv, Timed, low_tag, high_tag}
use sails.Net.ConnectorList.Ownership.{add-Inv}
use sails.Net.ConnectorList.Refresh.{del-Inv, refresh-Inv}
use sails.Net.ConnectorList.Check.{check_timeout-early, check_timeout-Closes}

-- What `getUniqId` gives out: an id with the list's magic, whose slot is free, and which nobody
-- holds.
abbrev pub Unowned : ConnectorList → List ℕ → ℕ → ConnectorList → Type 0
Unowned l issued uid l' =
    Inv l' (bit_and uid uid_mask ∷ issued)
    × (bit_and uid magic_mask ≡ l.magic)
    × (0 < bit_and uid uid_mask)
    × (bit_and uid uid_mask ≤ l.total)
    × (count (bit_and uid uid_mask) issued ≡ 0)
    × (get_elem? l.vconn (bit_and uid uid_mask) ≡ some none)

take_front-Inv :
    (l : ConnectorList) (issued rest : List ℕ) (i : ℕ)
    → Inv l issued
    → l.free ≡ i ∷ rest
    → Inv (record l { free = rest; free_size = dec64 l.free_size }) (i ∷ issued)
take_front-Inv l issued rest i v f =
    let n : length l.free ≡ suc (length rest) = ap length f in
    record {
      small = v.small;
      slots = v.slots;
      magic = v.magic;
      word = v.word;
      sized = omega (arith, v.sized, v.tally, v.small);
      tally = omega (arith, v.tally);
      owned = λ j. unfold count in ground (arith, v.owned j, ap (count j) f);
    }

take_front-Unowned :
    (l : ConnectorList) (issued rest : List ℕ) (i : ℕ)
    → Inv l issued
    → Timed l
    → l.free ≡ i ∷ rest
    → (uid : ℕ) × (l' : ConnectorList) × (take_front l (i ∷ rest) ≡ some (uid, l'))
      × Unowned l issued uid l'
      × Timed l'
unfolding take_front
take_front-Unowned l issued rest i v t f =
    let c : count i l.free ≡ suc (count i rest) = ap (count i) f ∙ (unfold count in ground arith) in
    let own : (0 < i) × (i ≤ l.total) × (count i issued ≡ 0) × (held i l.vconn ≡ 0) =
      ground (arith, v.owned i) in
    let p : ltb 0 i ≡ true = ground arith in
    let q : leb i l.total ≡ true = ground arith in
    let low = low_tag l.magic i v.magic (omega (arith, v.small)) in
    (
      bit_or l.magic i,
      record l { free = rest; free_size = dec64 l.free_size },
      rw (p, q) refl,
      rw low (
        take_front-Inv l issued rest i v f,
        high_tag l.magic i v.magic v.word (omega (arith, v.small)),
        own.0,
        own.1,
        own.2,
        empty_slot i l.vconn (omega (arith, v.slots)) own.3,
      ),
      record { one_each = t.one_each; iterators = t.iterators; fresh = t.fresh; sorted = t.sorted },
    )

-- While an id is free, `getUniqId` gives out an id that carries the magic, lies in the table, and
-- is nobody's.
pub get_uniq_id-Unowned :
    (l : ConnectorList) (issued : List ℕ)
    → Inv l issued
    → Timed l
    → 0 < length l.free
    → (uid : ℕ) × (l' : ConnectorList) × (get_uniq_id l ≡ some (uid, l'))
      × Unowned l issued uid l'
      × Timed l'
unfolding get_uniq_id
get_uniq_id-Unowned l issued v t h = go l.free refl
  where
    go :
        (xs : List ℕ)
        → l.free ≡ xs
        → (uid : ℕ) × (l' : ConnectorList) × (take_front l xs ≡ some (uid, l'))
          × Unowned l issued uid l'
          × Timed l'
    go [] f = absurd (omega (arith, ap length f))
    go (i ∷ rest) f = take_front-Unowned l issued rest i v t f

-- One call of a server thread that adds only ids it was given, whose asserts hold.
pub data Step : ConnectorList × List ℕ → ConnectorList × List ℕ → Type 0 where
  issues :
      (l l' : ConnectorList) (issued : List ℕ) (uid : ℕ)
      → get_uniq_id l ≡ some (uid, l')
      → Step (l, issued) (l', bit_and uid uid_mask ∷ issued)
  adds :
      (l l' : ConnectorList) (issued : List ℕ) (c : Connector) (stamp : ℕ)
      → 0 < count (bit_and c.id uid_mask) issued
      → add l c stamp ≡ some l'
      → Step (l, issued) (l', erase (bit_and c.id uid_mask) issued)
  refreshes :
      (l l' : ConnectorList) (issued : List ℕ) (uid stamp : ℕ)
      → refresh l uid stamp ≡ some l'
      → Step (l, issued) (l', issued)
  checks :
      (l l' : ConnectorList) (issued us : List ℕ) (now : ℕ)
      → check_timeout l now ≡ some (us, l')
      → Step (l, issued) (l', issued)
  deletes :
      (l l' : ConnectorList) (issued : List ℕ) (uid : ℕ)
      → del l uid ≡ some l'
      → Step (l, issued) (l', issued)

pub data Reach (s : ConnectorList × List ℕ) : ConnectorList × List ℕ → Type 0 where
  here : Reach s s
  next : {t u : ConnectorList × List ℕ} → Reach s t → Step t u → Reach s u

-- The invariants are kept by a result that is the only one.
only :
    (l l' : ConnectorList) (issued : List ℕ)
    → Inv l issued × Timed l
    → some l ≡ some l'
    → Inv l' issued × Timed l'
only l l' issued v e = subst (λ x. Inv x issued × Timed x) (let q : l ≡ l' = ground arith in q) v

-- An id that passes the asserts carries the magic.
slot_of-some :
    (l : ConnectorList) (uid : ℕ) (o : Option Entry)
    → slot_of l uid ≡ some o
    → (bit_and uid magic_mask ≡ l.magic) × (get_elem? l.vconn (bit_and uid uid_mask) ≡ some o)
slot_of-some l uid o e = ground arith

add-marked :
    (l l' : ConnectorList) (c : Connector) (stamp : ℕ)
    → add l c stamp ≡ some l'
    → bit_and c.id magic_mask ≡ l.magic
unfolding add
add-marked l l' c stamp e = ground arith

-- The slot that an id stands for has a connection.
abbrev HasEntry : ConnectorList → ℕ → Type 0
HasEntry l uid =
    (e : Entry) × (bit_and uid magic_mask ≡ l.magic)
    × (get_elem? l.vconn (bit_and uid uid_mask) ≡ some (some e))

module _ (l l' : ConnectorList) (uid : ℕ) where
  refresh-HasEntry :
      (stamp : ℕ) (x : Option (Option Entry))
      → slot_of l uid ≡ x
      → refresh l uid stamp ≡ some l'
      → HasEntry l uid
  unfolding refresh
  refresh-HasEntry stamp none q h =
      let r : none ≡ some l' = sym (rw (q, refresh) refl) ∙ h in absurd (ground arith)
  refresh-HasEntry stamp (some none) q h =
      let r : none ≡ some l' = sym (rw (q, refresh) refl) ∙ h in absurd (ground arith)
  refresh-HasEntry stamp (some (some e)) q h =
      let (m, g) = slot_of-some l uid (some e) q in (e, m, g)

  del-HasEntry :
      (x : Option (Option Entry)) → slot_of l uid ≡ x → del l uid ≡ some l' → HasEntry l uid
  unfolding del
  del-HasEntry none q h =
      let r : none ≡ some l' = sym (rw (q, del) refl) ∙ h in absurd (ground arith)
  del-HasEntry (some none) q h =
      let r : none ≡ some l' = sym (rw (q, del) refl) ∙ h in absurd (ground arith)
  del-HasEntry (some (some e)) q h = let (m, g) = slot_of-some l uid (some e) q in (e, m, g)

take_front-empty : (l : ConnectorList) (xs : List ℕ) → length xs ≡ 0 → take_front l xs ≡ none
unfolding take_front
take_front-empty l [] h = refl
take_front-empty l (x ∷ xs) h = absurd (omega arith)

-- With no id left, `getUniqId` reads the front of an empty list.
get_uniq_id-empty : (l : ConnectorList) → length l.free ≡ 0 → get_uniq_id l ≡ none
unfolding get_uniq_id
get_uniq_id-empty l h = take_front-empty l l.free h

issues-Inv :
    (l l' : ConnectorList) (issued : List ℕ) (uid : ℕ)
    → Inv l issued
    → Timed l
    → get_uniq_id l ≡ some (uid, l')
    → Inv l' (bit_and uid uid_mask ∷ issued) × Timed l'
issues-Inv l l' issued uid v t e =
    elim (length l.free)
        as (λ n. length l.free ≡ n → Inv l' (bit_and uid uid_mask ∷ issued) × Timed l') [
          | zero ↦ λ n. let r = sym (get_uniq_id-empty l n) ∙ e in absurd (ground arith)
          | suc k ↦ λ n.
              let (uid', m, q, i, u) = get_uniq_id-Unowned l issued v t (omega arith) in
              let r : some (uid', m) ≡ some (uid, l') = sym q ∙ e in
              let r1 : uid' ≡ uid = ground arith in
              let r2 : m ≡ l' = ground arith in
              (
                subst (λ x. Inv x (bit_and uid uid_mask ∷ issued)) r2
                    (subst (λ x. Inv m (bit_and x uid_mask ∷ issued)) r1 i.0),
                subst Timed r2 u,
              )
        ]
      refl

Step-Inv :
    {s t : ConnectorList × List ℕ} → Step s t → Inv s.0 s.1 → Timed s.0 → Inv t.0 t.1 × Timed t.0
Step-Inv (issues l l' issued uid e) v t = issues-Inv l l' issued uid v t e
Step-Inv (adds l l' issued c stamp h e) v t =
    let (m, q, i, u, _) =
      add-Inv l issued c (bit_and c.id uid_mask) stamp v t (add-marked l l' c stamp e) refl h in
    only m l' (erase (bit_and c.id uid_mask) issued) (i, u) (sym q ∙ e)
Step-Inv (refreshes l l' issued uid stamp e) v t =
    let (f, marked, g) = refresh-HasEntry l l' uid stamp (slot_of l uid) refl e in
    let (m, q, i, u, _) =
      refresh-Inv l issued uid (bit_and uid uid_mask) stamp f v t marked refl g in
    only m l' issued (i, u) (sym q ∙ e)
Step-Inv (checks l l' issued us now e) v t = elim (Bool-cases (leb now l.last_timeout_time)) [
  | inl early ↦
      only l l' issued (v, t)
        (let q = sym (check_timeout-early l now (ground arith)) ∙ e in ground arith)
  | inr late ↦
      let (us', m, q, i, u, _) = check_timeout-Closes l issued now v t (ground arith) in
      only m l' issued (i, u) (let r = sym q ∙ e in ground arith)
]
Step-Inv (deletes l l' issued uid e) v t =
    let (f, marked, g) = del-HasEntry l l' uid (slot_of l uid) refl e in
    let (m, q, i, u, _, _) = del-Inv l issued uid (bit_and uid uid_mask) f v t marked refl g in
    only m l' issued (i, u) (sym q ∙ e)

-- Whatever the order of `getUniqId`, `add` of an id that was issued, `refresh`, `checkTimeout` and
-- `del`: each id of the table is free, or issued, or in use, and only one of these; and each
-- connection of the table has exactly one node in the list of timeouts, which its iterator names,
-- while the list stays in the order of the times.
pub Reach-Timed :
    {s t : ConnectorList × List ℕ} → Inv s.0 s.1 → Timed s.0 → Reach s t → Inv t.0 t.1 × Timed t.0
Reach-Timed v u here = (v, u)
Reach-Timed v u (next r st) = let (w, x) = Reach-Timed v u r in Step-Inv st w x

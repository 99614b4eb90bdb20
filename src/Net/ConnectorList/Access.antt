-- ===== src/Net/ConnectorList/Access.antt =====
-- net/connector_list.cc: `get` after `add`, `refresh` and `del`, and the status of a listener.
use sails.Prelude.{
  ℕ, zero, suc, ◌+◌, ◌≤◌, ◌≡◌, ◌≢◌, ◌⊎◌, false, ◌==◌, refl, sym, ap, ◌∙◌, bit_and, Option, none,
  some, List, [], ◌∷◌, arith, if◌then◌else◌, length, get_elem?, set, drop, get_elem?-set_self,
  get_elem?-some, drop-get_elem?, Bool-cases, inl, inr,
}
use sails.Prelude.Splits.{drop_all}
use sails.Prelude.Int.{ℤ, eq_ℤ}
use sails.Net.Connector.{Connector}
use sails.Net.ConnectorList.{
  ConnectorList, Entry, ConnStatus, get, add, del, del_slot, status_of, status_loop,
  get_conn_status, magic_mask, uid_mask,
}
use sails.Net.ConnectorList.Invariant.{Inv}

-- What `add` and `del` do to the table when they return.
pub add-some :
    (l l' : ConnectorList) (c : Connector) (stamp i : ℕ)
    → bit_and c.id uid_mask ≡ i
    → add l c stamp ≡ some l'
    → (i ≤ l.total)
      × (bit_and c.id magic_mask ≡ l'.magic)
      × (l'.vconn ≡ set l.vconn i (some (record { conn = c; timer = l.next_node })))
unfolding add
add-some l l' c stamp i m e = rw (← m) (ground arith)

pub del-some :
    (l l' : ConnectorList) (uid i : ℕ)
    → bit_and uid uid_mask ≡ i
    → del l uid ≡ some l'
    → (i ≤ l.total) × (bit_and uid magic_mask ≡ l'.magic) × (l'.vconn ≡ set l.vconn i none)
unfolding del del_slot
del-some l l' uid i m e = rw (← m) (ground arith)

pub get-slot :
    (l : ConnectorList) (uid : ℕ) (o : Option Entry)
    → bit_and uid magic_mask ≡ l.magic
    → get_elem? l.vconn (bit_and uid uid_mask) ≡ some o
    → get l uid ≡ some (elim o [ none ↦ none | some e ↦ some e.conn ])
unfolding get
get-slot l uid none m g = ground arith
get-slot l uid (some e) m g = ground arith

pub del-total : (l l' : ConnectorList) (uid : ℕ) → del l uid ≡ some l' → l'.total ≡ l.total
unfolding del del_slot
del-total l l' uid e = ground arith

-- `get` finds a null pointer, or the connection of a slot of the table.
abbrev pub Found : ConnectorList → ℕ → Type 0
Found l uid =
    (get l uid ≡ some none)
    ⊎ ((e : Entry) × (bit_and uid magic_mask ≡ l.magic)
        × (get_elem? l.vconn (bit_and uid uid_mask) ≡ some (some e))
        × (get l uid ≡ some (some e.conn)))

get-unmarked :
    (l : ConnectorList) (uid : ℕ)
    → (bit_and uid magic_mask == l.magic) ≡ false
    → get l uid ≡ some none
unfolding get
get-unmarked l uid h = rw (h, get) refl

get-marked :
    (l : ConnectorList) (uid : ℕ) (o : Option Entry)
    → bit_and uid magic_mask ≡ l.magic
    → get_elem? l.vconn (bit_and uid uid_mask) ≡ some o
    → Found l uid
get-marked l uid none m g = inl (get-slot l uid none m g)
get-marked l uid (some e) m g = inr (e, m, g, get-slot l uid (some e) m g)

-- Where the magic is that of the list, the slot must be in range.
pub get-Found :
    (l : ConnectorList) (issued : List ℕ) (uid : ℕ)
    → Inv l issued
    → (bit_and uid magic_mask ≢ l.magic) ⊎ (bit_and uid uid_mask ≤ l.total)
    → Found l uid
get-Found l issued uid v h = elim (Bool-cases (bit_and uid magic_mask == l.magic)) [
  | inr other ↦ inl (get-unmarked l uid other)
  | inl same ↦
      let m : bit_and uid magic_mask ≡ l.magic = ground arith in
      let le : bit_and uid uid_mask ≤ l.total = elim h [ inl n ↦ absurd (n m) | inr b ↦ b ] in
      let (o, g) = get_elem?-some l.vconn (bit_and uid uid_mask) (omega (arith, v.slots)) in
      get-marked l uid o m g
]

-- Once `add` has returned, `get` finds the connection under its id.
pub get-add_lem :
    (l l' : ConnectorList) (issued : List ℕ) (c : Connector) (stamp : ℕ)
    → Inv l issued
    → add l c stamp ≡ some l'
    → get l' c.id ≡ some (some c)
get-add_lem l l' issued c stamp v e =
    let (le, m, s) = add-some l l' c stamp (bit_and c.id uid_mask) refl e in
    let f : Entry = record { conn = c; timer = l.next_node } in
    get-slot l' c.id (some f) m (
      ap (λ vs. get_elem? vs (bit_and c.id uid_mask)) s
      ∙ get_elem?-set_self l.vconn (bit_and c.id uid_mask) (some f) (omega (arith, v.slots)))

-- Once `del` has returned, `get` finds a null pointer under the id.
pub get-del_lem :
    (l l' : ConnectorList) (issued : List ℕ) (uid : ℕ)
    → Inv l issued
    → del l uid ≡ some l'
    → get l' uid ≡ some none
get-del_lem l l' issued uid v e =
    let (le, m, s) = del-some l l' uid (bit_and uid uid_mask) refl e in
    get-slot l' uid none m (
      ap (λ vs. get_elem? vs (bit_and uid uid_mask)) s
      ∙ get_elem?-set_self l.vconn (bit_and uid uid_mask) none (omega (arith, v.slots)))

-- The connections of a listener, in the order of the slots.
abbrev pub statuses : ℤ → List (Option Entry) → List ConnStatus
statuses lfd [] = []
statuses lfd (none ∷ vs) = statuses lfd vs
statuses lfd (some e ∷ vs) =
    let rest = statuses lfd vs in
    if eq_ℤ e.conn.listen_fd lfd then status_of e.conn ∷ rest else rest

slot_status :
    (i k : ℕ) (lfd : ℤ) (vs : List (Option Entry)) (o : Option Entry)
    → get_elem? vs i ≡ some o
    → status_loop (i + 1) k lfd vs ≡ some (statuses lfd (drop (i + 1) vs))
    → status_loop i (suc k) lfd vs ≡ some (statuses lfd (o ∷ drop (i + 1) vs))
unfolding status_loop
slot_status i k lfd vs none g e = rw (g, status_loop) e
slot_status i k lfd vs (some f) g e = elim (Bool-cases (eq_ℤ f.conn.listen_fd lfd)) [
  | inl same ↦ rw (g, same, e, status_loop) refl
  | inr other ↦ rw (g, other, status_loop) e
]

status_loop-statuses :
    (k i : ℕ) (lfd : ℤ) (vs : List (Option Entry))
    → i + k ≡ length vs
    → status_loop i k lfd vs ≡ some (statuses lfd (drop i vs))
unfolding status_loop
status_loop-statuses zero i lfd vs h = rw (drop_all i vs (omega arith)) refl
status_loop-statuses (suc k) i lfd vs h =
    let (o, g) = get_elem?-some vs i (omega arith) in
    slot_status i k lfd vs o g (status_loop-statuses k (i + 1) lfd vs (omega arith))
    ∙ ap (λ xs. some (statuses lfd xs)) (sym (drop-get_elem? vs i g))

-- `getConnStatus` does not fault, and lists the connections of the listener that is asked for, each
-- once and no others, in the order of their slots.
pub get_conn_status-statuses :
    (l : ConnectorList) (issued : List ℕ) (lfd : ℤ)
    → Inv l issued
    → get_conn_status l lfd ≡ some (statuses lfd (drop 1 l.vconn))
unfolding get_conn_status
get_conn_status-statuses l issued lfd v =
    status_loop-statuses l.total 1 lfd l.vconn (omega (arith, v.slots))

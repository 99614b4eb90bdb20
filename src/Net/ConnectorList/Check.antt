-- ===== src/Net/ConnectorList/Check.antt =====
-- net/connector_list.cc: `checkTimeout` as a whole.
use sails.Prelude.{
  ℕ, zero, suc, ◌<◌, ◌≤◌, ◌≡◌, refl, sym, ap, ◌∙◌, Bool, true, false, Option, none, some, List, [],
  ◌∷◌, arith, ltb, leb, if◌then◌else◌, length, get_elem?, set, Bool-cases, inl, inr,
}
use sails.Prelude.Counts.{count}
use sails.Base.PtrList.Invariant.{held, weight, held-set}
use sails.Net.ConnectorList.{ConnectorList, Entry, Timer, check_loop, check_timeout}
use sails.Net.ConnectorList.Timers.{count_uid, is_sorted_from, sorted_weaken}
use sails.Net.ConnectorList.Invariant.{Inv, Timed}
use sails.Net.ConnectorList.Timeout.{
  count_due, is_listening, timed_out, mark, is_watched, Checked, nil-Checked, stop-Checked,
  keep-Checked, close-Checked, weight-mark,
}

-- Nothing happens a second time within the second.
pub check_timeout-early :
    (l : ConnectorList) (now : ℕ) → now ≤ l.last_timeout_time → check_timeout l now ≡ some ([], l)
unfolding check_timeout
check_timeout-early l now h = ground arith

mark-entry :
    (a : Bool) (o : Option (Option Entry)) (f : Entry)
    → mark a o ≡ some (some f)
    → (e : Entry) × (o ≡ some (some e)) × (f.timer ≡ e.timer)
mark-entry a none f h = absurd (ground arith)
mark-entry a (some none) f h = absurd (ground arith)
mark-entry false (some (some e)) f h = (e, refl, ground arith)
mark-entry true (some (some e)) f h = elim (Bool-cases (is_listening e)) [
  | inl l ↦ (e, refl, ground arith)
  | inr l ↦ (e, refl, ground arith)
]

-- A slot with a connection holds an entry, in the table.
full_slot :
    (i : ℕ) (vs : List (Option Entry))
    → held i vs ≡ 1
    → (e : Entry) × (get_elem? vs i ≡ some (some e)) × (i < length vs)
full_slot i [] h = absurd (omega arith)
full_slot zero (none ∷ vs) h = absurd (omega arith)
full_slot zero (some e ∷ vs) h = (e, refl, omega arith)
full_slot (suc i) (v ∷ vs) h = let (e, g, b) = full_slot i vs h in (e, g, omega arith)

pub check_loop-Checked :
    (now : ℕ) (ts : List Timer) (vs : List (Option Entry))
    → is_sorted_from 0 ts ≡ true
    → ((i : ℕ) → 0 < count_uid i ts → held i vs ≡ 1)
    → (us : List ℕ) × (vs' : List (Option Entry)) × (check_loop now ts vs ≡ some (us, vs'))
      × Checked now ts vs us vs'
unfolding check_loop
check_loop-Checked now [] vs s f = ([], vs, refl, nil-Checked now vs)
check_loop-Checked now (t ∷ ts) vs s f =
    let (e, g, b) = full_slot t.uid vs (f t.uid (ground arith)) in
    let sorted : is_sorted_from 0 ts ≡ true =
      sorted_weaken t.time 0 ts (ground arith) (omega arith) in
    elim (Bool-cases (ltb now t.time)) [
      | inl over ↦ ([], vs, rw (over, check_loop) refl, stop-Checked now t ts vs s (ground arith))
      | inr due ↦ elim (Bool-cases (is_listening e)) [
        | inl l ↦
            let (us, vs', q, c) = check_loop-Checked now ts vs sorted (λ i h. f i (omega arith)) in
            (
              us,
              vs',
              rw (due, g, l, q, check_loop) refl,
              keep-Checked now t ts vs vs' us e g l (ground arith) c,
            )
        | inr l ↦
            let (us, vs', q, c) =
              check_loop-Checked now ts (set vs t.uid (some (timed_out e))) sorted
                (λ i h. ground (arith, f i, held-set t.uid i (some (timed_out e)) vs b)) in
            (
              t.uid ∷ us,
              vs',
              rw (due, g, l, q, check_loop) refl,
              close-Checked now t ts vs vs' us e g l (ground arith) b c,
            )
      ]
    ]

pub Checked-Inv :
    (l : ConnectorList) (issued us : List ℕ) (now : ℕ) (vs : List (Option Entry))
    → Inv l issued
    → Checked now l.tl l.vconn us vs
    → Inv (record l { vconn = vs; last_timeout_time = now }) issued
Checked-Inv l issued us now vs v c = record {
  small = v.small;
  slots = c.long ∙ v.slots;
  magic = v.magic;
  word = v.word;
  sized = v.sized;
  tally = omega (arith, v.tally, c.tally);
  owned = λ i. omega (
    arith,
    v.owned i,
    ap weight (c.slots i),
    weight-mark (ltb 0 (count_due i now l.tl)) (get_elem? l.vconn i),
  );
}

pub Checked-Timed :
    (l : ConnectorList) (us : List ℕ) (now : ℕ) (vs : List (Option Entry))
    → Timed l
    → Checked now l.tl l.vconn us vs
    → Timed (record l { vconn = vs; last_timeout_time = now })
Checked-Timed l us now vs t c = record {
  one_each = λ i. omega (
    arith,
    t.one_each i,
    ap weight (c.slots i),
    weight-mark (ltb 0 (count_due i now l.tl)) (get_elem? l.vconn i),
  );
  iterators = λ i f h.
      let (e, g, k) =
        mark-entry (ltb 0 (count_due i now l.tl)) (get_elem? l.vconn i) f (sym (c.slots i) ∙ h) in
      rw k (t.iterators i e g);
  fresh = t.fresh;
  sorted = t.sorted;
}

-- What a check does once its second has come.
pub record Closes (l : ConnectorList) (now : ℕ) (us : List ℕ) (l' : ConnectorList) : Type 0 where
  pub slots :
      (j : ℕ) → get_elem? l'.vconn j ≡ mark (ltb 0 (count_due j now l.tl)) (get_elem? l.vconn j)
  pub calls :
      (j : ℕ) → count j us ≡ (if is_watched (get_elem? l.vconn j) then count_due j now l.tl else 0)
  pub same_tl : l'.tl ≡ l.tl
  pub at_time : l'.last_timeout_time ≡ now

-- In a later second than the last check, `checkTimeout` does not fault; it has called `set_timeout`
-- just on the connections that have a node with a time up to now and whose listening descriptor is
-- not -1, and left every other slot, the list of timeouts and the invariants as they were.
pub check_timeout-Closes :
    (l : ConnectorList) (issued : List ℕ) (now : ℕ)
    → Inv l issued
    → Timed l
    → l.last_timeout_time < now
    → (us : List ℕ) × (l' : ConnectorList) × (check_timeout l now ≡ some (us, l'))
      × Inv l' issued
      × Timed l'
      × Closes l now us l'
unfolding check_timeout
check_timeout-Closes l issued now v t h =
    let (us, vs, q, c) =
      check_loop-Checked now l.tl l.vconn t.sorted
        (λ i p. ground (arith, t.one_each i, v.owned i)) in
    let late : leb now l.last_timeout_time ≡ false = ground arith in
    (
      us,
      record l { vconn = vs; last_timeout_time = now },
      rw (late, q, check_timeout) refl,
      Checked-Inv l issued us now vs v c,
      Checked-Timed l us now vs t c,
      record { slots = c.slots; calls = c.calls; same_tl = refl; at_time = refl },
    )

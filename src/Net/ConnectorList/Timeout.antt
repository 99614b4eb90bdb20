-- ===== src/Net/ConnectorList/Timeout.antt =====
-- net/connector_list.cc: what `checkTimeout` does to the table.
use sails.Prelude.{
  ℕ, suc, ◌+◌, ◌<◌, ◌≤◌, ◌≡◌, refl, sym, ap, ◌∙◌, Bool, true, false, ◌&&◌, not, Option, none, some,
  List, [], ◌∷◌, arith, ltb, leb, ◌==◌, if◌then◌else◌, length, get_elem?, set, length-set,
  get_elem?-set_self, get_elem?-set_ne, Bool-cases, inl, inr,
}
use sails.Prelude.Int.{negsuc, eq_ℤ}
use sails.Prelude.Counts.{count, count-cons_self}
use sails.Base.PtrList.Invariant.{held, weight, held_count, held_count-set}
use sails.Net.Connector.{set_timeout}
use sails.Net.ConnectorList.{Entry, Timer}
use sails.Net.ConnectorList.Timers.{is_sorted_from}

-- How many of a slot's nodes have a time up to now.
pub count_due : ℕ → ℕ → List Timer → ℕ
count_due j now [] = 0
count_due j now (t ∷ ts) = (if (t.uid == j) && leb t.time now then 1 else 0) + count_due j now ts

abbrev pub is_listening : Entry → Bool
is_listening e = eq_ℤ e.conn.listen_fd (negsuc 0)

abbrev pub timed_out : Entry → Entry
timed_out e = record e { conn = (set_timeout e.conn).1 }

-- A slot when the check is over, from whether it was due.
abbrev pub mark : Bool → Option (Option Entry) → Option (Option Entry)
mark true (some (some e)) = some (some (if is_listening e then e else timed_out e))
mark _ o = o

-- Whether a slot's connection is one that the check closes.
abbrev pub is_watched : Option (Option Entry) → Bool
is_watched (some (some e)) = not (is_listening e)
is_watched _ = false

pub record Checked (now : ℕ) (ts : List Timer) (vs : List (Option Entry)) (us : List ℕ)
    (vs' : List (Option Entry)) : Type 0 where
  pub slots : (j : ℕ) → get_elem? vs' j ≡ mark (ltb 0 (count_due j now ts)) (get_elem? vs j)
  pub calls : (j : ℕ) → count j us ≡ (if is_watched (get_elem? vs j) then count_due j now ts else 0)
  pub long : length vs' ≡ length vs
  pub tally : held_count vs' ≡ held_count vs

none_due :
    (j now low : ℕ) (ts : List Timer)
    → is_sorted_from low ts ≡ true
    → now < low
    → count_due j now ts ≡ 0
unfolding count_due
none_due j now low [] s h = refl
none_due j now low (t ∷ ts) s h = ground (arith, none_due j now t.time ts)

pub mark-false : (o : Option (Option Entry)) → mark false o ≡ o
mark-false none = refl
mark-false (some none) = refl
mark-false (some (some e)) = refl

mark_twice :
    (a : Bool) (e : Entry)
    → is_listening e ≡ false
    → mark a (some (some (timed_out e))) ≡ mark true (some (some e))
unfolding set_timeout
mark_twice true e h = rw h refl
mark_twice false e h = rw h refl

pub stop-Checked :
    (now : ℕ) (t : Timer) (ts : List Timer) (vs : List (Option Entry))
    → is_sorted_from 0 (t ∷ ts) ≡ true
    → now < t.time
    → Checked now (t ∷ ts) vs [] vs
unfolding count
stop-Checked now t ts vs s h =
    let z : (j : ℕ) → count_due j now (t ∷ ts) ≡ 0 =
      λ j. none_due j now t.time (t ∷ ts) (ground arith) h in
    record {
      slots = λ j. rw (z j) (sym (mark-false (get_elem? vs j)));
      calls = λ j. ground (arith, z j);
      long = refl;
      tally = refl;
    }

mark_listening :
    (a : Bool) (e : Entry) → is_listening e ≡ true → mark a (some (some e)) ≡ some (some e)
mark_listening true e h = rw h refl
mark_listening false e h = refl

positive : (n : ℕ) → ltb 0 (suc n) ≡ true
positive n = ground arith

due_here :
    (now : ℕ) (t : Timer) (ts : List Timer)
    → t.time ≤ now
    → count_due t.uid now (t ∷ ts) ≡ suc (count_due t.uid now ts)
unfolding count_due
due_here now t ts h = ground arith

due_other :
    (j now : ℕ) (t : Timer) (ts : List Timer)
    → (t.uid == j) ≡ false
    → count_due j now (t ∷ ts) ≡ count_due j now ts
unfolding count_due
due_other j now t ts h = ground arith

-- A listening connection is passed over.
pub keep-Checked :
    (now : ℕ) (t : Timer) (ts : List Timer) (vs vs' : List (Option Entry)) (us : List ℕ) (e : Entry)
    → get_elem? vs t.uid ≡ some (some e)
    → is_listening e ≡ true
    → t.time ≤ now
    → Checked now ts vs us vs'
    → Checked now (t ∷ ts) vs us vs'
keep-Checked now t ts vs vs' us e g l h c = record {
  slots = λ j. elim (Bool-cases (t.uid == j)) [
    | inl same ↦
        let s : t.uid ≡ j = ground arith in
        let n = due_here now t ts h in
        rw (← s, n, positive (count_due t.uid now ts))
          (c.slots t.uid
            ∙ (rw g (
                mark_listening (ltb 0 (count_due t.uid now ts)) e l
                ∙ sym (mark_listening true e l))))
    | inr other ↦ rw (due_other j now t ts other) (c.slots j)
  ];
  calls = λ j. elim (Bool-cases (t.uid == j)) [
    | inl same ↦ let s : t.uid ≡ j = ground arith in rw (← s) (c.calls t.uid ∙ (rw (g, l) refl))
    | inr other ↦ rw (due_other j now t ts other) (c.calls j)
  ];
  long = c.long;
  tally = c.tally;
}

count_other : (j i : ℕ) (us : List ℕ) → (i == j) ≡ false → count j (i ∷ us) ≡ count j us
unfolding count
count_other j i us h = ground arith

-- A connection that is due is closed.
pub close-Checked :
    (now : ℕ) (t : Timer) (ts : List Timer) (vs vs' : List (Option Entry)) (us : List ℕ) (e : Entry)
    → get_elem? vs t.uid ≡ some (some e)
    → is_listening e ≡ false
    → t.time ≤ now
    → t.uid < length vs
    → Checked now ts (set vs t.uid (some (timed_out e))) us vs'
    → Checked now (t ∷ ts) vs (t.uid ∷ us) vs'
unfolding set_timeout
close-Checked now t ts vs vs' us e g l h b c =
    let self = get_elem?-set_self vs t.uid (some (timed_out e)) b in
    let ne : (j : ℕ)
        → (t.uid == j) ≡ false
        → get_elem? (set vs t.uid (some (timed_out e))) j ≡ get_elem? vs j =
      λ j o. get_elem?-set_ne vs t.uid j (some (timed_out e)) (λ q. ground arith) in
    record {
      slots = λ j. elim (Bool-cases (t.uid == j)) [
        | inl same ↦
            let s : t.uid ≡ j = ground arith in
            rw (← s, due_here now t ts h, positive (count_due t.uid now ts), g)
              (c.slots t.uid
                ∙ ap (mark (ltb 0 (count_due t.uid now ts))) self
                ∙ mark_twice (ltb 0 (count_due t.uid now ts)) e l)
        | inr other ↦
            rw (due_other j now t ts other)
              (c.slots j ∙ ap (mark (ltb 0 (count_due j now ts))) (ne j other))
      ];
      calls = λ j. elim (Bool-cases (t.uid == j)) [
        | inl same ↦
            let s : t.uid ≡ j = ground arith in
            let k : count t.uid us ≡ count_due t.uid now ts = c.calls t.uid ∙ (rw (self, l) refl) in
            rw (← s, due_here now t ts h, g, l) (omega (arith, count-cons_self t.uid us, k))
        | inr other ↦
            let k = c.calls j in
            count_other j t.uid us other ∙ (rw (due_other j now t ts other, ← ne j other) k)
      ];
      long = c.long ∙ length-set vs t.uid (some (timed_out e));
      tally =
          let n : held t.uid vs ≡ 1 = ap weight g in
          omega (arith, c.tally, held_count-set t.uid (some (timed_out e)) vs b);
    }

pub nil-Checked : (now : ℕ) (vs : List (Option Entry)) → Checked now [] vs [] vs
unfolding count_due count
nil-Checked now vs = record {
  slots = λ j. sym (mark-false (get_elem? vs j));
  calls = λ j. ground arith;
  long = refl;
  tally = refl;
}

pub weight-mark : (a : Bool) (o : Option (Option Entry)) → weight (mark a o) ≡ weight o
weight-mark a none = ground arith
weight-mark a (some none) = ground arith
weight-mark false (some (some e)) = refl
weight-mark true (some (some e)) = ground arith

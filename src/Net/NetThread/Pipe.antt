-- ===== src/Net/NetThread/Pipe.antt =====
-- net/net_thread.h: `read_pipe_cb` takes every command of the queue, and never faults.
use sails.Prelude.{
  ℕ, suc, ◌+◌, ◌^◌, ◌<◌, ◌≤◌, ◌≡◌, refl, sym, ap, ◌∙◌, Option, none, some, List, [], ◌∷◌, ◌++◌,
  arith, length,
}
use sails.Prelude.Words.{dec64}
use sails.Base.ThreadQueue.{ThreadQueue}
use sails.Base.ThreadQueue.Order.{IsValid, pop_front-cons, pop_front-nil}
use sails.Net.Commands.{TagSendData}
use sails.Net.NetThread.{
  NetThread, Effect, Outcome, next_accept, run_command, pipe_loop, read_pipe_cb, event_write,
}
use sails.Net.NetThread.Sound.{Sound, Sensible}
use sails.Net.NetThread.Commands.{run_command-Ran}

-- All that is queued is sensible.
pub data Each (magic total : ℕ) : List TagSendData → Type 0 where
  none_left : Each magic total []
  and_rest :
      (msg : TagSendData) (msgs : List TagSendData)
      → Sensible magic total msg
      → Each magic total msgs
      → Each magic total (msg ∷ msgs)

-- The bytes of the commands.
abbrev pub cost : List TagSendData → ℕ
cost [] = 0
cost (msg ∷ msgs) = cost msgs + length msg.buffer

-- The commands one after the other.
pub run_all : NetThread → List TagSendData → List (Option ℕ) → Outcome
run_all t [] outs = some ([], t)
run_all t (msg ∷ msgs) outs = elim (run_command t msg (next_accept outs).0) [
  | none ↦ none
  | some (es, t') ↦ elim (run_all t' msgs (next_accept outs).1) [
    | none ↦ none
    | some (fs, u) ↦ some (es ++ fs, u)
  ]
]

-- The queue once its commands are taken.
pub drain : ThreadQueue TagSendData → List TagSendData → ThreadQueue TagSendData
drain q [] = q
drain q (msg ∷ msgs) = drain (record q { queue = msgs; size = dec64 q.size }) msgs

abbrev with_queue : ThreadQueue TagSendData → Outcome → Outcome
with_queue q none = none
with_queue q (some (es, t)) = some (es, record t { sendlist = q })

pub Sound-queue :
    (t : NetThread) (q : ThreadQueue TagSendData) (issued : List ℕ) (n : ℕ)
    → Sound t issued n
    → Sound (record t { sendlist = q }) issued n
Sound-queue t q issued n s = record {
  table = s.table;
  timed = s.timed;
  loop = s.loop;
  conns = s.conns;
}

-- A command does not look at the queue.
run_command-queue :
    (t : NetThread) (q : ThreadQueue TagSendData) (msg : TagSendData) (a : Option ℕ)
    → run_command (record t { sendlist = q }) msg a ≡ with_queue q (run_command t msg a)
unfolding run_command
run_command-queue t q msg a = ground arith

run_all-cons :
    (t : NetThread) (msg : TagSendData) (msgs : List TagSendData) (outs : List (Option ℕ))
    → {es fs : List Effect} {u v : NetThread}
    → run_command t msg (next_accept outs).0 ≡ some (es, u)
    → run_all u msgs (next_accept outs).1 ≡ some (fs, v)
    → run_all t (msg ∷ msgs) outs ≡ some (es ++ fs, v)
unfolding run_all
run_all-cons t msg msgs outs e f = rw (e, f, run_all) refl

pub pipe_loop-nil :
    (fuel : ℕ) (t : NetThread) (outs : List (Option ℕ))
    → t.sendlist.queue ≡ []
    → pipe_loop (suc fuel) t outs ≡ some ([], t)
unfolding pipe_loop
pipe_loop-nil fuel t outs h = rw (pop_front-nil t.sendlist h, pipe_loop) refl

pub pipe_loop-cons :
    (fuel : ℕ) (t : NetThread) (msg : TagSendData) (msgs : List TagSendData)
    (outs : List (Option ℕ))
    → {es fs : List Effect} {u v : NetThread} → t.sendlist.queue ≡ msg ∷ msgs
    → 0 < t.sendlist.size
    → run_command
        (record t { sendlist = record t.sendlist { queue = msgs; size = dec64 t.sendlist.size } })
        msg
        (next_accept outs).0
      ≡ some (es, u)
    → pipe_loop fuel u (next_accept outs).1 ≡ some (fs, v)
    → pipe_loop (suc fuel) t outs ≡ some (es ++ fs, v)
unfolding pipe_loop
pipe_loop-cons fuel t msg msgs outs h k e f =
    rw (pop_front-cons t.sendlist msg msgs h k, pipe_loop) (rw (e, f) refl)

-- What the loop comes to: the effects and the thread of its commands one after the other, with
-- nothing left in the queue.
pub record Piped (t : NetThread) (issued : List ℕ) (outs : List (Option ℕ)) (o : Outcome)
    : Type 0 where
  pub effects : List Effect
  pub after : NetThread
  pub result : o ≡ some (effects, after)
  pub in_order :
      run_all (record t { sendlist = drain t.sendlist t.sendlist.queue }) t.sendlist.queue outs
      ≡ some (effects, after)
  pub sound : Sound after issued 0
  pub emptied : after.sendlist.queue ≡ []

pipe_loop-Piped :
    (t : NetThread) (issued : List ℕ) (msgs : List TagSendData) (outs : List (Option ℕ))
    → t.sendlist.queue ≡ msgs
    → length msgs ≤ t.sendlist.size
    → t.sendlist.size < 2 ^ 64
    → Sound t issued (cost msgs)
    → Each t.connector_list.magic t.connector_list.total msgs
    → Piped t issued outs (pipe_loop (suc (length msgs)) t outs)
unfolding pipe_loop run_all drain
pipe_loop-Piped t issued [] outs h counted small s each = record {
  effects = [];
  after = t;
  result = pipe_loop-nil 0 t outs h;
  in_order = rw h refl;
  sound = s;
  emptied = h;
}
pipe_loop-Piped t issued (msg ∷ msgs) outs h counted small s (and_rest _ _ r each) =
    let q : ThreadQueue TagSendData = record t.sendlist {
      queue = msgs;
      size = dec64 t.sendlist.size;
    } in
    let u = record t { sendlist = q } in
    let a = (next_accept outs).0 in
    let k =
      run_command-Ran u issued (cost msgs) msg a
        (Sound-queue t q issued (cost msgs + length msg.buffer) s) r in
    let each' : Each k.after.connector_list.magic k.after.connector_list.total msgs =
      rw (k.same_magic, k.same_total) each in
    let p =
      pipe_loop-Piped k.after issued msgs (next_accept outs).1 (ap (λ x. x.queue) k.same_queue)
        (omega (arith, ap (λ x. x.size) k.same_queue))
        (omega (arith, ap (λ x. x.size) k.same_queue)) k.sound each' in
    let d = drain q msgs in
    let same = λ (x : ThreadQueue TagSendData).
      run_all (record k.after { sendlist = drain x x.queue }) x.queue (next_accept outs).1 in
    let rest : same q ≡ some (p.effects, p.after) = ap same (sym k.same_queue) ∙ p.in_order in
    let first : run_command (record t { sendlist = d }) msg a
        ≡ some (k.effects, record k.after { sendlist = d }) =
      run_command-queue u d msg a ∙ ap (with_queue d) k.result in
    record {
      effects = k.effects ++ p.effects;
      after = p.after;
      result = pipe_loop-cons (suc (length msgs)) t msg msgs outs h (omega arith) k.result p.result;
      in_order =
          ap (λ xs. run_all (record t { sendlist = drain t.sendlist xs }) xs outs) h
          ∙ run_all-cons (record t { sendlist = d }) msg msgs outs first rest;
      sound = p.sound;
      emptied = p.emptied;
    }

-- For a sound thread and a queue of sensible commands, whose stored size is their number and whose bytes fit into each output buffer on
-- top of what it holds, the notification is served without a fault: the thread does what the
-- commands do one after the other, in the order of the queue, the queue is empty afterwards, and
-- the thread is sound.
pub read_pipe_cb-Piped :
    (t : NetThread) (issued : List ℕ) (outs : List (Option ℕ))
    → IsValid t.sendlist
    → Sound t issued (cost t.sendlist.queue)
    → Each t.connector_list.magic t.connector_list.total t.sendlist.queue
    → Piped t issued outs (read_pipe_cb t event_write outs)
unfolding read_pipe_cb
read_pipe_cb-Piped t issued outs v s each =
    pipe_loop-Piped t issued t.sendlist.queue outs refl (omega (arith, v.counted))
      (omega (arith, v.small)) s each

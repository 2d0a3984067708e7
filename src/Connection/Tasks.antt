-- ===== src/Connection/Tasks.antt =====
-- The tasks that a connection leaves to its loop, and a chain of `send` by another thread.
use Prim.Native.Nat.{bit_or}
use cppweb.Base.Outcome.{After, After-bind, After-assert, After-if, After-use, After-map}
use cppweb.Base.{
  suc, ℕ, ◌≡◌, ◌≢◌, inl, inr, refl, sym, ap, ◌∙◌, true, false, List, [], ◌∷◌, ◌++◌, append-nil,
  append_assoc, arith, ==_iff, ==_of_ne, ◌==◌, Result, ok, ◌>>=◌, Bool-cases, length, sub_size, ltb,
  not, ◌&&◌, drop, Result-cases,
}
use cppweb.Buffer.{append, readable_bytes}
use cppweb.Channel.{Channel, is_writing, is_none_events, epollout}
use cppweb.Epoller.{Ctl, update_channel}
use cppweb.Interest.{enable_write}
use cppweb.Connection.{
  Connection, connected, disconnected, is, Task, send_task, shutdown_task, force_close_task,
  stop_read_task, start_read_task, write_complete_task, high_water_task, Written, accepted, refused,
  send, send_in_loop, send_rest, write_now, after_write, keep_output, watch_output,
  shutdown_in_loop, force_close_in_loop, stop_read_in_loop, start_read_in_loop, on_channel,
}
use cppweb.Connection.Lifecycle.{Still}
use cppweb.Connection.Unchanged.{send_in_loop-Still}

-- The loop, of thread `tid`, runs a task. The tasks that only run a callback of the user leave the connection
-- alone.
unfoldable pub run_task : (List ℕ → Written) → ℕ → Task → Connection → Result Connection
run_task write tid (send_task bytes) c = send_in_loop write tid bytes c
run_task write tid shutdown_task c = shutdown_in_loop tid c
run_task write tid force_close_task c = force_close_in_loop tid c
run_task write tid stop_read_task c = stop_read_in_loop tid c
run_task write tid start_read_task c = start_read_in_loop tid c
run_task write tid write_complete_task c = ok c
run_task write tid (high_water_task n) c = ok c

-- The kernel's answers to the calls of `write`, one after another: what the kernel answers may change from one
-- call to the next. A task or a `send` makes one call at most.
abbrev pub Answers : Type 0
Answers = ℕ → List ℕ → Written

abbrev later : Answers → Answers
later writes n = writes (suc n)

unfoldable pub run_each : Answers → ℕ → List Task → Connection → Result Connection
run_each writes tid [] c = ok c
run_each writes tid (t ∷ ts) c = do
  c' ← run_task (writes 0) tid t c
  run_each (later writes) tid ts c'

-- The loop takes the tasks and runs them in order.
unfoldable pub run_tasks : Answers → ℕ → Connection → Result Connection
run_tasks writes tid c = run_each writes tid c.tasks (record c { tasks = [] })

-- Calls of `send`, one after another.
unfoldable pub send_all : Answers → ℕ → List (List ℕ) → Connection → Result Connection
send_all writes tid [] c = ok c
send_all writes tid (bytes ∷ rest) c = do
  c' ← send (writes 0) tid bytes c
  send_all (later writes) tid rest c'

abbrev send_tasks : List (List ℕ) → List Task
send_tasks [] = []
send_tasks (bytes ∷ rest) = send_task bytes ∷ send_tasks rest

queued :
    (writes : Answers) (tid : ℕ) (xss : List (List ℕ)) (c : Connection)
    → is c.state connected ≡ true
    → (c.channel.loop_tid == tid) ≡ false
    → send_all writes tid xss c ≡ ok (record c { tasks = c.tasks ++ send_tasks xss })
unfolding send_all send
queued writes tid [] c up other = ap (λ ts. ok (record c { tasks = ts })) (sym (append-nil c.tasks))
queued writes tid (bytes ∷ rest) c up other =
    let c' : Connection = record c { tasks = c.tasks ++ (send_task bytes ∷ []) } in
    let asked : send (writes 0) tid bytes c ≡ ok c' = rw (up, send, other) refl in
    rw asked (
      queued (later writes) tid rest c' up other
      ∙ ap (λ ts. ok (record c { tasks = ts }))
          (append_assoc c.tasks (send_task bytes ∷ []) (send_tasks rest)))

update_channel-loop_tid :
    (tid : ℕ) (c : Channel) → After (update_channel tid c) (λ p. p.0.loop_tid ≡ c.loop_tid)
unfolding update_channel is_none_events
update_channel-loop_tid tid c =
    let P = λ (p : Channel × Ctl). p.0.loop_tid ≡ c.loop_tid in
    After-assert P (c.loop_tid == tid) _ (λ _. elim (Bool-cases c.polling) [
      | inl on ↦ rw on (After-if (c.events == 0) P _ _ refl refl)
      | inr off ↦ rw off (After-assert P (not (c.events == 0)) _ (λ _. refl))
    ])

-- `d` belongs to the loop of `c`.
abbrev SameLoop : Connection → Connection → Type 0
SameLoop c d = d.channel.loop_tid ≡ c.channel.loop_tid

on_channel-SameLoop :
    (tid : ℕ) (c : Connection) → After (on_channel (enable_write tid) c) (SameLoop c)
unfolding enable_write
on_channel-SameLoop tid c =
    let d : Channel = record c.channel { events = bit_or c.channel.events epollout } in
    After-bind (SameLoop c) (update_channel tid d) _ (λ p e.
      After-use (λ (p : Channel × Ctl). p.0.loop_tid ≡ d.loop_tid) _ p e
        (update_channel-loop_tid tid d))

watch_output-SameLoop : (n : ℕ) (c : Connection) → SameLoop c (watch_output n c)
unfolding watch_output
watch_output-SameLoop n c = ground arith

keep_output-SameLoop :
    (tid : ℕ) (rest : List ℕ) (c : Connection) → After (keep_output tid rest c) (SameLoop c)
unfolding keep_output
keep_output-SameLoop tid rest c =
    let d : Connection = watch_output (length rest) c in
    After-bind _ (append d.output rest) _ (λ o _.
      After-map _ _ (on_channel (enable_write tid) (record d { output = o }))
        (λ c' s. s ∙ watch_output-SameLoop (length rest) c)
        (on_channel-SameLoop tid (record d { output = o })))

after_write-SameLoop :
    (bytes : List ℕ) (r : Written) (c : Connection) → SameLoop c ((after_write bytes r c).2)
unfolding after_write
after_write-SameLoop bytes (refused errno) c = refl
after_write-SameLoop bytes (accepted n) c = ground arith

write_now-SameLoop :
    (write : List ℕ → Written) (bytes : List ℕ) (c : Connection)
    → After (write_now write bytes c) (λ p. SameLoop c p.2)
unfolding write_now
write_now-SameLoop write bytes c = elim (Bool-cases (is_writing c.channel)) [
  | inl busy ↦ rw busy refl
  | inr idle ↦ rw idle (
      After-assert _ (readable_bytes c.output == 0) _
        (λ _. after_write-SameLoop bytes (write bytes) c))
]

send_in_loop-SameLoop :
    (write : List ℕ → Written) (tid : ℕ) (bytes : List ℕ) (c : Connection)
    → After (send_in_loop write tid bytes c) (SameLoop c)
unfolding send_in_loop send_rest
send_in_loop-SameLoop write tid bytes c = After-assert _ (c.channel.loop_tid == tid) _ (λ _.
    After-if (is c.state disconnected) _ _ _ refl (
      After-bind _ (write_now write bytes c) _ (λ p e.
        let s = After-use (λ p. SameLoop c p.2) _ p e (write_now-SameLoop write bytes c) in
        After-if (not p.1 && ltb 0 (sub_size (length bytes) p.0)) _ _ _
          (After-map _ _ (keep_output tid (drop p.0 bytes) p.2) (λ c' k. k ∙ s)
            (keep_output-SameLoop tid (drop p.0 bytes) p.2))
          s)))

-- The tasks run as the calls of `send` in the loop's thread would.
run_each-send_tasks :
    (writes : Answers) (tid : ℕ) (xss : List (List ℕ)) (c : Connection)
    → is c.state connected ≡ true
    → c.channel.loop_tid ≡ tid
    → run_each writes tid (send_tasks xss) c ≡ send_all writes tid xss c
unfolding run_each run_task send_all send
run_each-send_tasks writes tid [] c up own = refl
run_each-send_tasks writes tid (bytes ∷ rest) c up own =
    let here = (==_iff c.channel.loop_tid tid).1 own in
    let asked : send (writes 0) tid bytes c ≡ send_in_loop (writes 0) tid bytes c =
      rw (up, here, send) refl in
    elim (Result-cases (send_in_loop (writes 0) tid bytes c)) [
      | inl (d, sent) ↦
          let still = After-use (Still c) _ d sent (send_in_loop-Still (writes 0) tid bytes c) in
          let same =
            After-use (SameLoop c) _ d sent (send_in_loop-SameLoop (writes 0) tid bytes c) in
          rw (asked, sent)
            (run_each-send_tasks (later writes) tid rest d
              (ap (λ t. is t connected) still.state ∙ up) (same ∙ own))
      | inr (f, failed) ↦ rw (asked, failed) refl
    ]

-- On an established connection without tasks, calls of `send` by another thread, one after another, leave to
-- the loop exactly what makes its next run of the tasks do the same as those calls made in the loop's thread,
-- whatever the kernel answers to each write in turn: the same bytes in the same order, the same output and the
-- same new tasks.
pub send_all-run_tasks :
    (writes writes' : Answers) (tid : ℕ) (xss : List (List ℕ)) (c : Connection)
    → is c.state connected ≡ true
    → c.tasks ≡ []
    → c.channel.loop_tid ≢ tid
    → (send_all writes' tid xss c >>= run_tasks writes c.channel.loop_tid)
      ≡ send_all writes c.channel.loop_tid xss c
unfolding run_tasks
send_all-run_tasks writes writes' tid xss c up none_yet other =
    let all_queued = queued writes' tid xss c up (==_of_ne c.channel.loop_tid tid other) in
    let clean : Connection = record c { tasks = [] } in
    let same : clean ≡ c = ap (λ ts. record c { tasks = ts }) (sym none_yet) in
    ap (λ r. r >>= run_tasks writes c.channel.loop_tid) all_queued
    ∙ ap (λ ts. run_each writes c.channel.loop_tid (ts ++ send_tasks xss) clean) none_yet
    ∙ run_each-send_tasks writes c.channel.loop_tid xss clean up refl
    ∙ ap (send_all writes c.channel.loop_tid xss) same

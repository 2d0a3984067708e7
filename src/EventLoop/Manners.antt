-- ===== src/EventLoop/Manners.antt =====
-- What a turn of the loop runs, and what it asks of the users' callbacks and tasks.

use mathlib.Core.Path.{subst}
use mathlib.Core.List.{Mem}
use cppweb.Base.{
  ℕ, ◌≡◌, ◌↔◌, Bool, true, not, ◌&&◌, ◌||◌, List, [], ◌∷◌, ◌++◌, Returns, Result, ok, sym, ap, ◌∙◌,
  append_assoc,
}
use cppweb.Channel.{Channel, Callback}
use cppweb.Channel.Dispatch.{Runs, wants, Ascending}
use cppweb.EventLoop.Turn.{Run, called, ran, Turn, Users}

-- The callbacks `ks` are those of a channel with the flags that came, as its own code chooses them.
abbrev pub Chosen : Bool → Channel → List Callback → Type 0
Chosen alive c ks =
    ((k : Callback) → Runs k ks ↔ (((wants c k && c.has k) && (not c.tied || alive)) ≡ true))
    × Ascending 0 ks

-- Only what it waits for changed in a channel.
abbrev pub Alike : Channel → Channel → Type 0
Alike c c' = c' ≡ record c { events = c'.events; polling = c'.polling }

abbrev pub calls : ℕ → List Callback → List Run
calls fd [] = []
calls fd (k ∷ ks) = called fd k ∷ calls fd ks

abbrev pub runs : List ℕ → List Run
runs [] = []
runs (task ∷ tasks) = ran task ∷ runs tasks

-- The runs for a list of active channels: each channel's callbacks, one channel after the other.
abbrev pub Dispatched : (ℕ → Bool) → (ℕ → Channel) → List ℕ → List Run → Type 0
Dispatched alive channels [] log = log ≡ []
Dispatched alive channels (fd ∷ fds) log =
    (ks : List Callback) × (rest : List Run) × (log ≡ calls fd ks ++ rest)
    × Chosen (alive fd) (channels fd) ks
    × Dispatched alive channels fds rest

-- A run is noted, and made.
abbrev pub make_run : Users → Run → Turn → Result Turn
make_run u (called fd k) t = u.handle fd k (record t { log = t.log ++ (called fd k ∷ []) })
make_run u (ran task) t = u.perform task (record t { log = t.log ++ (ran task ∷ []) })

-- The runs `rs`, made one after another, lead from `t` to `t'`; each queues tasks behind those that are queued,
-- and `more` are all that they queue, in order.
abbrev pub Queues : Users → List Run → Turn → Turn → List ℕ → Type 0
Queues u [] t t' more = (t' ≡ t) × (more ≡ [])
Queues u (r ∷ rs) t t' more =
    (t1 : Turn) × (first : List ℕ) × (rest : List ℕ) × (make_run u r t ≡ ok t1)
    × (t1.pending ≡ t.pending ++ first)
    × (more ≡ first ++ rest)
    × Queues u rs t1 t' rest

pub Queues-++ :
    (u : Users) (rs ss : List Run) (t t1 t2 : Turn) (m1 m2 : List ℕ)
    → Queues u rs t t1 m1
    → Queues u ss t1 t2 m2
    → Queues u (rs ++ ss) t t2 (m1 ++ m2)
Queues-++ u [] ss t t1 t2 m1 m2 (e, n) h =
    subst (λ m. Queues u ss t t2 (m ++ m2)) (sym n) (subst (λ x. Queues u ss x t2 m2) e h)
Queues-++ u (r ∷ rs) ss t t1 t2 m1 m2 (x, first, rest, made, queued, all, h) k = (
  x,
  first,
  rest ++ m2,
  made,
  queued,
  ap (λ m. m ++ m2) all ∙ append_assoc first rest m2,
  Queues-++ u rs ss x t1 t2 rest m2 h k,
)

-- What a callback of an active channel may do: queue tasks, and change what channels wait for, but neither take
-- callbacks or flags from the channels that are active nor end the objects that they are tied to.
pub record IsKept (u : Users) (fds : List ℕ) (t t' : Turn) : Type 0 where
  pub log : t'.log ≡ t.log
  pub alike : (fd : ℕ) → Mem fd fds → Alike (t.poll.channels fd) (t'.poll.channels fd)
  pub alive : (fd : ℕ) → Mem fd fds → u.alive fd t' ≡ u.alive fd t
  pub more : List ℕ
  pub queued : t'.pending ≡ t.pending ++ more

-- The tasks queue tasks, and leave the record of what ran alone.
pub record IsQueued (t t' : Turn) : Type 0 where
  pub log : t'.log ≡ t.log
  pub more : List ℕ
  pub queued : t'.pending ≡ t.pending ++ more

pub record IsPolite (u : Users) (fds : List ℕ) : Type 0 where
  pub handles :
      (fd : ℕ) (k : Callback) (t : Turn) → Mem fd fds → Returns (u.handle fd k t) (IsKept u fds t)
  pub performs : (task : ℕ) (t : Turn) → Returns (u.perform task t) (IsQueued t)
  pub notes :
      (fd : ℕ) (r : Run) (t : Turn)
      → u.alive fd (record t { log = t.log ++ (r ∷ []) }) ≡ u.alive fd t

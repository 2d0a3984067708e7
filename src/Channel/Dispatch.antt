-- ===== src/Channel/Dispatch.antt =====
-- Which callbacks an event runs, and in which order.

use cppweb.Base.{
  false, refl, ==_iff, ◌||◌, ◌++◌, ◌↔◌, suc, ◌≤◌, if◌then◌else◌, ℕ, ◌≡◌, ◌⊎◌, Bool, not, ◌&&◌, List,
  [], ◌∷◌, true, arith, Returns,
}
use cppweb.Channel.{
  Channel, Callback, on_read, on_write, on_close, on_error, has_any, epollin, epollout, epollerr,
  epollhup, handle_events_with_guard, handle_events,
}

-- When an event asks for a callback, as the comments of the source say: a hang-up with nothing
-- left to read closes; what can be read includes urgent data and the peer's shutdown.
abbrev pub wants : Channel → Callback → Bool
wants c on_close = has_any c.revents epollhup && not (has_any c.revents epollin)
wants c on_error = has_any c.revents epollerr
wants c on_read = has_any c.revents (0x2003)
wants c on_write = has_any c.revents epollout

-- `k` is among the callbacks.
abbrev pub Runs : Callback → List Callback → Type 0
Runs k [] = ⊥
Runs k (x ∷ xs) = (x ≡ k) ⊎ Runs k xs

abbrev pub rank : Callback → ℕ
rank on_close = 0
rank on_error = 1
rank on_read = 2
rank on_write = 3

-- Each callback comes after the others of lower rank, so none comes twice.
abbrev pub Ascending : ℕ → List Callback → Type 0
Ascending n [] = Unit {0}
Ascending n (k ∷ ks) = (n ≤ rank k) × Ascending (suc (rank k)) ks

abbrev if_set : Bool → Callback → List Callback
if_set b k = if b then k ∷ [] else []

abbrev chosen : Bool → Bool → Bool → Bool → List Callback
chosen c e r w = if_set c on_close ++ (if_set e on_error ++ (if_set r on_read ++ if_set w on_write))

abbrev pick : Bool → Bool → Bool → Bool → Callback → Bool
pick c e r w on_close = c
pick c e r w on_error = e
pick c e r w on_read = r
pick c e r w on_write = w

chosen-Runs : (c e r w : Bool) (k : Callback) → Runs k (chosen c e r w) ↔ (pick c e r w k ≡ true)
chosen-Runs c e r w on_close = (ground arith, ground arith)
chosen-Runs c e r w on_error = (ground arith, ground arith)
chosen-Runs c e r w on_read = (ground arith, ground arith)
chosen-Runs c e r w on_write = (ground arith, ground arith)

chosen-Ascending : (c e r w : Bool) → Ascending 0 (chosen c e r w)
chosen-Ascending c e r w = ground arith

wants-pick :
    (c : Channel) (k : Callback)
    → pick
        (wants c on_close && c.has on_close)
        (wants c on_error && c.has on_error)
        (wants c on_read && c.has on_read)
        (wants c on_write && c.has on_write)
        k
      ≡ (wants c k && c.has k)
wants-pick c on_close = refl
wants-pick c on_error = refl
wants-pick c on_read = refl
wants-pick c on_write = refl

guarded_lem :
    (c : Channel)
    → ((k : Callback) → Runs k (handle_events_with_guard c) ↔ ((wants c k && c.has k) ≡ true))
      × Ascending 0 (handle_events_with_guard c)
unfolding handle_events_with_guard
guarded_lem c = ((λ k. rw (← wants-pick c k) (chosen-Runs _ _ _ _ k)), chosen-Ascending _ _ _ _)

abbrev gated : Bool → Bool → List Callback → List Callback
gated tied alive ks = if tied then (if alive then ks else []) else ks

gated_lem :
    (tied alive : Bool) (w : Callback → Bool) (ks : List Callback)
    → ((k : Callback) → Runs k ks ↔ (w k ≡ true)) × Ascending 0 ks
    → ((k : Callback) → Runs k (gated tied alive ks) ↔ ((w k && (not tied || alive)) ≡ true))
      × Ascending 0 (gated tied alive ks)
gated_lem true true w ks h =
    ((λ k. ((λ r. ground (arith, (h.0 k).0 r)), (λ e. (h.0 k).1 (ground arith)))), h.1)
gated_lem true false w ks h = ((λ k. ((λ r. absurd r), (λ e. ground arith))), tt)
gated_lem false alive w ks h =
    ((λ k. ((λ r. ground (arith, (h.0 k).0 r)), (λ e. (h.0 k).1 (ground arith)))), h.1)

-- In the thread of the loop `handleEvents` returns. It runs exactly the callbacks that are set and
-- that the events ask for, in the order close, error, read, write; none of them where the channel
-- is tied to an object that no longer exists.
pub handle_events_lem :
    (alive : Bool) (c : Channel)
    → Returns (handle_events c.loop_tid alive c) (λ ks.
      ((k : Callback) → Runs k ks ↔ (((wants c k && c.has k) && (not c.tied || alive)) ≡ true))
      × Ascending 0 ks)
unfolding handle_events
handle_events_lem alive c = (
  gated c.tied alive (handle_events_with_guard c),
  rw ((==_iff c.loop_tid c.loop_tid).1 refl) refl,
  gated_lem c.tied alive (λ k. wants c k && c.has k) (handle_events_with_guard c) (guarded_lem c),
)

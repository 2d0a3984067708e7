-- ===== src/TcpClient/Elapsed.antt =====
-- What `handleRead` makes of a client, with its retry timer due or not.
use mathlib.Core.Path.{subst}
use cppweb.Base.{
  not, ℕ, ◌≤◌, ◌≡◌, ◌⊎◌, inl, inr, refl, sym, ap, ◌∙◌, Bool, true, false, none, some, List, [], ◌∷◌,
  ◌++◌, if◌then◌else◌, ok, fault, dangling, ◌>>=◌, ==_iff, ◌==◌, Bool-cases, arith, le→leb, Result,
}
use cppweb.Base.Outcome.{After, After-bind, After-map, After-use, After-assert, After-if}
use cppweb.Connector.{starting, Connector}
use cppweb.Connector.Attempts.{IsSteady, attempt-Attempted}
use cppweb.Connector.{attempt}
use cppweb.Sockets.{Answer}
use cppweb.TimerQueue.{Timer, Entry, TimerQueue, Run, settle, run_expired, is_expired, deref}
use cppweb.TimerQueue.Memory.{Live, deref-ok, deref-dangling}
use cppweb.TimerQueue.Cancel.{cancel_in_loop-deletes}
use cppweb.TimerQueue.Settle.{fire-ok}
use cppweb.TimerQueue.Expiry.{CanRun, CanRun-next}
use cppweb.TcpClient.{Client, connect, retry, report}
use cppweb.TcpClient.Retry.{succeeds, start-Reports}
use cppweb.TcpClient.Dangling.{is_retry, retry-connect, retry-cancels}
use cppweb.TcpClient.Elapse.{run_callback, fire_timer, run_due}

-- After an attempt that did not succeed only the connector has changed.
abbrev pub Only : Client → Client → Type 0
Only c c' = (c' ≡ record c { connector = c'.connector }) × IsSteady c.tid c'.connector

pub some-ok : {A : Type 0} {a b : A} → ok a ≡ ok b → a ≡ b
some-ok {A} {a = a} e = ap (λ r. value r) e
  where
    value : Result A → A
    value (ok x) = x
    value (fault f) = a

-- A retry deletes its timer or changes only the connector.
retry-Only :
    (connecting asked : Answer) (a : ℕ) (c c1 : Client) {t : Timer}
    → IsSteady c.tid c.connector
    → c.connected ≡ false
    → c.retry_timer ≡ some a
    → c.timers.heap a ≡ some t
    → t.canceled ≡ false
    → retry c.tid connecting asked c ≡ ok c1
    → (c1.timers.heap a ≡ none) ⊎ Only c c1
unfolding connect report attempt
retry-Only connecting asked a c c1 s apart has here active e =
    elim (Bool-cases (succeeds connecting asked)) [
      | inl wins ↦
          let (q, cancelled, gone) = cancel_in_loop-deletes a c.timers here active in
          let same : ok c1.timers ≡ ok q =
            ap (λ r. r >>= (λ c'. ok c'.timers)) (sym e)
            ∙ retry-cancels connecting asked a c s apart has wins
            ∙ cancelled in
          inl (ap (λ (p : TimerQueue). p.heap a) (some-ok same) ∙ gone)
      | inr loses ↦
          let (r, began, tried) = attempt-Attempted c.tid (starting connecting asked) s in
          let told = After-use _ _ r began (start-Reports c.tid connecting asked c.connector) in
          let nothing : r.1 ≡ none = told ∙ ap (λ b. if b then some r.0.sockfd else none) loses in
          let left : connect c.tid connecting asked c ≡ ok (record c { connector = r.0 }) =
            rw (began, nothing, report) refl in
          let same : c1 ≡ record c { connector = r.0 } =
            some-ok (sym e ∙ retry-connect connecting asked c apart ∙ left) in
          inr (subst (Only c) (sym same) (refl, tried.steady))
    ]

is_retry-eq : (a b : ℕ) (c : Client) → c.retry_timer ≡ some a → is_retry c.retry_timer b ≡ (b == a)
is_retry-eq a b c has = ap (λ o. is_retry o b) has

-- So does the callback of any timer; where it deleted its timer, the round ends in a fault.
run_callback-Only :
    (connecting asked : Answer) (a : ℕ) (e : Entry) (c c1 : Client)
    → IsSteady c.tid c.connector
    → c.connected ≡ false
    → c.retry_timer ≡ some a
    → Live c.timers.heap e
    → run_callback connecting asked e.1 c ≡ ok c1
    → (settle e c1.timers ≡ fault dangling) ⊎ Only c c1
unfolding run_callback settle
run_callback-Only connecting asked a e c c1 s apart has (t, here, time, active) called =
    elim (Bool-cases (e.1 == a)) [
      | inl own ↦
          let same = (==_iff e.1 a).0 own in
          let retried : retry c.tid connecting asked c ≡ ok c1 =
            sym (chosen (is_retry-eq a e.1 c has ∙ own)) ∙ called in
          elim (retry-Only connecting asked a c c1 s apart has (ap c.timers.heap (sym same) ∙ here)
            active retried) [
              | inl gone ↦
                  inl (rw (deref-dangling e.1 c1.timers (ap c1.timers.heap same ∙ gone)) refl)
              | inr only ↦ inr only
            ]
      | inr other ↦
          let left : ok c ≡ ok c1 = sym (passed (is_retry-eq a e.1 c has ∙ other)) ∙ called in
          inr (subst (Only c) (some-ok left) (refl, s))
    ]
  where
    chosen :
        {b : Bool}
        → b ≡ true
        → (if b then retry c.tid connecting asked c else ok c) ≡ retry c.tid connecting asked c
    chosen h = rw h refl

    passed : {b : Bool} → b ≡ false → (if b then retry c.tid connecting asked c else ok c) ≡ ok c
    passed h = rw h refl

abbrev pub quiet : Run
quiet a q = ok q

-- The client after the loop over the entries `es`, where it returns: the queue is as with callbacks that leave
-- it alone, and no other part but the connector has changed.
pub record Elapsed (now : ℕ) (es : List Entry) (c c' : Client) : Type 0 where
  pub only : c' ≡ record c { timers = c'.timers; connector = c'.connector }
  pub steady : IsSteady c.tid c'.connector
  pub queue : run_expired quiet now es c.timers ≡ ok c'.timers

fired : Entry → Client → Client
fired e c = record c { timers = record c.timers { fired = c.timers.fired ++ (e.1 ∷ []) } }

fire_timer-ok :
    (connecting asked : Answer) (now : ℕ) (e : Entry) (c : Client)
    → Live c.timers.heap e
    → e.0 ≤ now
    → fire_timer connecting asked now e c ≡ run_callback connecting asked e.1 (fired e c)
unfolding fire_timer fired is_expired
fire_timer-ok connecting asked now e c l due =
    rw (deref-ok e.1 c.timers l.1, l.3, le→leb l.0.at now (omega (arith, l.2))) refl

-- The loop over timers that are due, in a client that is not connected.
pub run_due-Elapsed :
    (connecting asked : Answer) (now a : ℕ) (es : List Entry) (c : Client)
    → IsSteady c.tid c.connector
    → c.connected ≡ false
    → c.retry_timer ≡ some a
    → CanRun now c.timers es
    → After (run_due connecting asked now es c) (Elapsed now es c)
unfolding run_due run_expired fired
run_due-Elapsed k asked now a [] c s apart has r = record { only = refl; steady = s; queue = refl }
run_due-Elapsed k asked now a (e ∷ es) c s apart has r =
    let c0 = fired e c in
    let (t, here, (q2, e2, (settled, next))) = CanRun-next now e es r in
    let P = Elapsed now (e ∷ es) c in
    let go_on = λ (c1 : Client).
      settle e c1.timers >>= (λ q. run_due k asked now es (record c1 { timers = q })) in
    let own : run_expired quiet now (e ∷ es) c.timers ≡ run_expired quiet now es q2 =
      rw (fire-ok quiet now e c.timers r.live.0 r.due.0, e2) refl in
    let ends : (d : Connector) → IsSteady c.tid d → After (go_on (record c0 { connector = d })) P =
      λ d steady.
        let c2 : Client = record c { timers = q2; connector = d } in
        rw e2 (
          After-map (Elapsed now es c2) P (run_due k asked now es c2)
            (λ c' h. record { only = h.only; steady = h.steady; queue = own ∙ h.queue })
            (run_due-Elapsed k asked now a es c2 steady apart has next)) in
    subst (λ m. After (m >>= go_on) P) (sym (fire_timer-ok k asked now e c r.live.0 r.due.0))
      (After-bind P (run_callback k asked e.1 c0) go_on (λ c1 called.
        elim (run_callback-Only k asked a e c0 c1 s apart has r.live.0 called) [
          | inl fails ↦
              subst (λ m. After (m >>= (λ q. run_due k asked now es (record c1 { timers = q }))) P)
                (sym fails) tt
          | inr only ↦ subst (λ d. After (go_on d) P) (sym only.0) (ends c1.connector only.1)
        ]))

-- Only the queue has changed.
abbrev pub Rest : Client → Client → Type 0
Rest c c' = c' ≡ record c { timers = c'.timers }

fire_timer-Rest :
    (connecting asked : Answer) (now : ℕ) (e : Entry) (c : Client)
    → c.retry_timer ≡ none
    → After (fire_timer connecting asked now e c) (Rest c)
unfolding fire_timer run_callback fired
fire_timer-Rest k asked now e c none_left = After-bind (Rest c) (deref e.1 c.timers) _ (λ t _.
    After-assert (Rest c) (is_expired t now) _ (λ _.
      After-if (not t.canceled) (Rest c) _ _
        (subst (λ b. After (if b then retry c.tid k asked (fired e c) else ok (fired e c)) (Rest c))
          (sym (ap (λ o. is_retry o e.1) none_left)) refl)
        refl))

-- In a client without a retry timer only the queue changes.
pub run_due-Rest :
    (connecting asked : Answer) (now : ℕ) (es : List Entry) (c : Client)
    → c.retry_timer ≡ none
    → After (run_due connecting asked now es c) (Rest c)
unfolding run_due
run_due-Rest k asked now [] c none_left = refl
run_due-Rest k asked now (e ∷ es) c none_left =
    After-bind (Rest c) (fire_timer k asked now e c) _ (λ c1 did.
      let same = After-use (Rest c) _ c1 did (fire_timer-Rest k asked now e c none_left) in
      After-bind (Rest c) (settle e c1.timers) _ (λ q settled.
        let c2 : Client = record c1 { timers = q } in
        After-map (Rest c2) (Rest c) (run_due k asked now es c2)
          (λ c' h. h ∙ ap (λ (d : Client). record d { timers = c'.timers }) same)
          (run_due-Rest k asked now es c2 (ap (λ (d : Client). d.retry_timer) same ∙ none_left))))

-- ===== src/Connection/Send.antt =====
-- `sendInLoop`: every byte goes into the stream, unless the connection is broken.
use native.Mathlib.Decide.{dec_lt}
use mathlib.Core.Path.{subst}
use cppweb.Base.{
  length-drop, lt→ltb, ge→ltb, take_of_ge, ℕ, ◌+◌, ◌-◌, ◌≤◌, ◌≡◌, inl, inr, refl, sym, ap, ◌∙◌,
  Bool, true, false, List, [], ◌∷◌, ◌++◌, append_assoc, append-nil, arith, length, take, drop,
  Returns, max_size, ==_iff, Bool-cases, take-append-drop, sub_size-eq,
}
use cppweb.Buffer.{Buffer}
use cppweb.Buffer.Valid.{Holds, readable-Holds}
use cppweb.Channel.{Channel, is_writing}
use cppweb.Connection.{
  Connection, disconnected, is, Effect, written, Written, accepted, refused, is_retryable,
  record_effect, write_now, after_write, send_in_loop, send_rest, after_write,
}
use cppweb.Connection.Stream.{
  taken, taken-append, Waiting, IsWrite, SameStream, keep_output-Waiting,
}

-- What the `write` of `sendInLoop` did: it took the first `n` bytes, or it failed.
pub data Wrote (write : List ℕ → Written) (c : Connection) (bytes : List ℕ)
    : ℕ → Bool → Connection → Type 0 where
  not_tried : is_writing c.channel ≡ true → Wrote write c bytes 0 false c
  took :
      (n : ℕ) (c' : Connection)
      → n ≤ length bytes
      → is_writing c.channel ≡ false
      → SameStream (record_effect (written (take n bytes)) c) c'
      → Wrote write c bytes n false c'
  later : (errno : ℕ) → is_retryable errno ≡ true → Wrote write c bytes 0 false c
  broken :
      (errno : ℕ)
      → write bytes ≡ refused errno
      → is_retryable errno ≡ false
      → Wrote write c bytes 0 true c

empty_output :
    {c : Connection} {xs : List ℕ} → Waiting c xs → is_writing c.channel ≡ false → xs ≡ []
empty_output {xs = []} w idle = refl
empty_output {xs = x ∷ xs} w idle = absurd (not_both (w.watched (λ e. cc)) idle)
  where
    not_both : {b : Bool} → b ≡ true → b ≡ false → ⊥
    not_both p q = cc

after_write-Wrote :
    (write : List ℕ → Written) (bytes : List ℕ) (c : Connection) (r : Written)
    → IsWrite write
    → is_writing c.channel ≡ false
    → write bytes ≡ r
    → let p = after_write bytes r c in Wrote write c bytes p.0 p.1 p.2
unfolding after_write
after_write-Wrote write bytes c (accepted n) law idle e =
    took n _ (law bytes n e) idle (ground arith)
after_write-Wrote write bytes c (refused errno) law idle e =
    elim (Bool-cases (is_retryable errno)) [
      | inl again ↦ rw again (later errno again)
      | inr fatal ↦ rw fatal (broken errno e fatal)
    ]

write_now-Wrote :
    (write : List ℕ → Written) (bytes : List ℕ) {c : Connection} {xs : List ℕ}
    → IsWrite write
    → Waiting c xs
    → Returns (write_now write bytes c) (λ p. Wrote write c bytes p.0 p.1 p.2)
unfolding write_now
write_now-Wrote write bytes {c} {xs} law w = elim (Bool-cases (is_writing c.channel)) [
  | inl busy ↦ ((0, false, c), rw busy refl, not_tried busy)
  | inr idle ↦
      let none_waits = ap length (empty_output w idle) in
      (
        after_write bytes (write bytes) c,
        rw (idle, readable-Holds w.output, (==_iff (length xs) 0).1 none_waits) refl,
        after_write-Wrote write bytes c (write bytes) law idle refl,
      )
]

-- What `sendInLoop` comes to: all of the bytes are in the stream, behind what was there, or the
-- kernel refused them for good and they are dropped.
pub data Sent (write : List ℕ → Written) (c : Connection) (xs bytes : List ℕ) (c' : Connection)
    : Type 0 where
  delivered :
      (xs' : List ℕ)
      → Waiting c' xs'
      → taken c'.log ++ xs' ≡ taken c.log ++ (xs ++ bytes)
      → Sent write c xs bytes c'
  dropped :
      (errno : ℕ)
      → write bytes ≡ refused errno
      → is_retryable errno ≡ false
      → c' ≡ c
      → Sent write c xs bytes c'

send_rest-Sent :
    (write : List ℕ → Written) (bytes : List ℕ) {c : Connection} {xs : List ℕ} (n : ℕ)
    (d : Connection)
    → n ≤ length bytes
    → Waiting d xs
    → taken d.log ++ xs ≡ taken c.log ++ (xs ++ take n bytes)
    → d.output.writer_index + length bytes ≤ max_size
    → Returns (send_rest d.channel.loop_tid bytes (n, false, d)) (Sent write c xs bytes)
unfolding send_rest
send_rest-Sent write bytes {c} {xs} n d fits w stream room = elim (dec_lt n (length bytes)) [
  | yes more ↦
      let rest : List ℕ = drop n bytes in
      let (d', kept, held) = keep_output-Waiting rest w (omega (arith, length-drop n bytes)) in
      (
        d',
        rw
            (
              sub_size-eq (length bytes) n fits (omega arith),
              lt→ltb 0 (length bytes - n) (omega arith),
            )
            kept,
        delivered (xs ++ rest) held.0 (ap (λ zs. zs ++ (xs ++ rest)) held.2 ∙ regroup rest),
      )
  | no all ↦ (
    d,
    rw (sub_size-eq (length bytes) n fits (omega arith), ge→ltb 0 (length bytes - n) (omega arith))
        refl,
    delivered xs w
        (stream ∙ ap (λ zs. taken c.log ++ (xs ++ zs)) (take_of_ge n bytes (omega arith))),
  )
]
  where
    regroup : (rest : List ℕ) → taken d.log ++ (xs ++ drop n bytes) ≡ taken c.log ++ (xs ++ bytes)
    regroup rest =
        sym (append_assoc (taken d.log) xs (drop n bytes))
        ∙ ap (λ zs. zs ++ drop n bytes) stream
        ∙ append_assoc (taken c.log) (xs ++ take n bytes) (drop n bytes)
        ∙ ap (λ zs. taken c.log ++ zs)
            (append_assoc xs (take n bytes) (drop n bytes)
              ∙ ap (λ zs. xs ++ zs) (take-append-drop n bytes))

SameStream-Waiting :
    {c d : Connection} {xs : List ℕ} (e : Effect)
    → SameStream (record_effect e c) d
    → Waiting c xs
    → Waiting d xs
SameStream-Waiting {xs} e same w = record {
  output = subst (λ b. Holds b xs) (sym same.output) w.output;
  watched = λ h. ap is_writing same.channel ∙ w.watched h;
}

after-Sent :
    (write : List ℕ → Written) (bytes : List ℕ) {c : Connection} {xs : List ℕ} (n : ℕ) (b : Bool)
    (d : Connection)
    → Wrote write c bytes n b d
    → Waiting c xs
    → c.output.writer_index + length bytes ≤ max_size
    → Returns (send_rest c.channel.loop_tid bytes (n, b, d)) (Sent write c xs bytes)
unfolding send_rest
after-Sent write bytes {xs} n b d (not_tried busy) w room =
    send_rest-Sent write bytes 0 d (omega arith) w
      (ap (λ zs. taken d.log ++ zs) (sym (append-nil xs))) room
after-Sent write bytes {c} {xs} n b d (took k d' fits idle same) w room =
    subst
      (λ (ch : Channel).
        Returns (send_rest ch.loop_tid bytes (n, false, d)) (Sent write c xs bytes))
      same.channel
      (send_rest-Sent write bytes n d fits (SameStream-Waiting _ same w) stream
        (subst (λ (o : Buffer). o.writer_index + length bytes ≤ max_size) (sym same.output) room))
  where
    stream : taken d.log ++ xs ≡ taken c.log ++ (xs ++ take n bytes)
    stream =
        ap (λ log. taken log ++ xs) same.log
        ∙ ap (λ zs. zs ++ xs)
            (taken-append c.log (written (take n bytes))
              ∙ ap (λ zs. taken c.log ++ zs) (append-nil (take n bytes)))
        ∙ rw (empty_output w idle) (append-nil (taken c.log ++ take n bytes))
after-Sent write bytes {xs} n b d (later errno again) w room =
    send_rest-Sent write bytes 0 d (omega arith) w
      (ap (λ zs. taken d.log ++ zs) (sym (append-nil xs))) room
after-Sent write bytes n b d (broken errno e fatal) w room = (d, refl, dropped errno e fatal refl)

-- In the loop's thread, on a connection that is not closed, with a kernel that takes at most what
-- it is given and an output that can grow by the bytes, `sendInLoop` returns. Either the bytes
-- taken, followed by those that wait, grew by exactly the new ones, in order, and the channel
-- waits to write where any wait; or the kernel refused the write with an error that is not
-- temporary, and nothing changed.
pub send_in_loop-Sent :
    (write : List ℕ → Written) (bytes : List ℕ) {c : Connection} {xs : List ℕ}
    → IsWrite write
    → Waiting c xs
    → is c.state disconnected ≡ false
    → c.output.writer_index + length bytes ≤ max_size
    → Returns (send_in_loop write c.channel.loop_tid bytes c) (Sent write c xs bytes)
unfolding send_in_loop
send_in_loop-Sent write bytes {c} {xs} law w open_ room =
    let (p, e, wrote) = write_now-Wrote write bytes law w in
    let r = after-Sent write bytes p.0 p.1 p.2 wrote w room in
    rw ((==_iff c.channel.loop_tid c.channel.loop_tid).1 refl, open_, e) r

-- ===== src/Logger/Printing.antt =====
-- What a message of the logger prints, and that it stays within the buffer.

use cppweb.Base.{
  ℕ, zero, suc, ◌+◌, ◌-◌, ◌^◌, ◌<◌, ◌≤◌, ◌≡◌, ◌≢◌, refl, sym, ap, ◌∙◌, Bool, true, false, List, [],
  ◌∷◌, ◌++◌, length, take, length-append, length-take, arith, sub_size, add_size, sub_size-eq,
  add_size-eq, ◌==◌, ==_of_ne, ok, Returns, take_of_ge, get_elem?, some, not, ◌&&◌,
}
use cppweb.Bytes.{copy_to}
use cppweb.Logger.Text.{
  IsText, Printf, Time, max_line, stamp, sprintf, snprintf, timestamp, process, spaced,
  log_level_str, sys_str, write_text, base_text, sys_text, c_string, level_tag,
}
use cppweb.Logger.Fits.{
  copy-Holds, held, printed, append-IsText, take-IsText, IsTime, length-stamp, stamp-IsText,
}

-- What stands before a message.
abbrev pub prefix : Printf → Time → ℕ → List ℕ → List ℕ
prefix f t pid tag = (stamp f t ++ process f pid) ++ spaced tag

-- The buffer after a message: what is printed of it, and that the prefix is short.
pub record Printed (f : Printf) (t : Time) (pid : ℕ) (tag message bytes : List ℕ) : Type 0 where
  pub size : length bytes ≡ max_line
  pub short : length (prefix f t pid tag) ≤ 46
  pub text :
      c_string bytes
      ≡ prefix f t pid tag ++ take (max_line - 1 - length (prefix f t pid tag)) message

snprintf-copy_to :
    (i n : ℕ) (text bytes : List ℕ)
    → n ≢ 0
    → snprintf i n text bytes ≡ copy_to bytes i (take (n - 1) text ++ (0 ∷ []))
unfolding snprintf
snprintf-copy_to i n text bytes ne = rw (==_of_ne n 0 ne) refl

write_text-Printed :
    (f : Printf) (t : Time) (pid : ℕ) (tag message bytes : List ℕ)
    → IsTime t
    → pid < 10 ^ 10
    → length tag ≡ 7
    → IsText tag
    → IsText message
    → length bytes ≡ max_line
    → Returns (write_text f t pid tag message bytes) (Printed f t pid tag message)
unfolding write_text timestamp sprintf
write_text-Printed f t pid tag message bytes time small seven tag_text message_text size =
    let stamped = length-stamp f t time in
    let number = f.length-decimal 9 pid small in
    let named : length (process f pid) ≤ 13 =
      omega (arith, number, length-append (f.decimal pid) (93 ∷ [])) in
    let marked : length (spaced tag) ≡ 9 = omega (arith, seven, length-append tag (32 ∷ [])) in
    let text1 = stamp f t ++ process f pid in
    let size1 : length text1 ≡ length (stamp f t) + length (process f pid) =
      length-append (stamp f t) (process f pid) in
    let size2 : length (prefix f t pid tag) ≡ length text1 + length (spaced tag) =
      length-append text1 (spaced tag) in
    let (b0, e0, h0) = copy-Holds [] (stamp f t) bytes size refl (omega (arith, stamped)) in
    let (b1, e1, h1) =
      copy-Holds (stamp f t) (process f pid) b0 h0.size (held h0) (omega (arith, stamped, named)) in
    let (b2, e2, h2) =
      copy-Holds text1 (spaced tag) b1 h1.size (held h1)
        (omega (arith, stamped, named, marked, size1)) in
    let cut = take (max_line - 1 - length (prefix f t pid tag)) message in
    let cut_size = length-take (max_line - 1 - length (prefix f t pid tag)) message in
    let (b3, e3, h3) =
      copy-Holds (prefix f t pid tag) cut b2 h2.size (held h2)
        (omega (arith, stamped, named, marked, size1, size2, cut_size)) in
    let l = length (prefix f t pid tag) in
    let short : l ≤ 46 = omega (arith, stamped, named, marked, size1, size2) in
    let whole : take 31 (stamp f t) ≡ stamp f t =
      take_of_ge 31 (stamp f t) (omega (arith, stamped)) in
    let i1 : add_size (length (stamp f t)) (length (process f pid)) ≡ length text1 =
      add_size-eq (length (stamp f t)) (length (process f pid)) (omega (arith, stamped, named))
      ∙ sym size1 in
    let i2 : add_size (length text1) (length (spaced tag)) ≡ l =
      add_size-eq (length text1) (length (spaced tag)) (omega (arith, short, size2)) ∙ sym size2 in
    let left : sub_size max_line l ≡ max_line - l =
      sub_size-eq max_line l (omega (arith, short)) (omega arith) in
    let same : max_line - l - 1 ≡ max_line - 1 - l = omega arith in
    let last : snprintf l (sub_size max_line l) message b2 ≡ ok b3 =
      ap (λ n. snprintf l n message b2) left
      ∙ snprintf-copy_to l (max_line - l) message b2 (λ e. omega (arith, e, short))
      ∙ ap (λ n. copy_to b2 l (take n message ++ (0 ∷ []))) same
      ∙ e3 in
    (
      b3,
      rw
          (
            snprintf-copy_to 0 32 (stamp f t) bytes (λ e. omega (arith, e)),
            whole,
            e0,
            e1,
            i1,
            e2,
            i2,
          )
          last,
      record {
        size = h3.size;
        short = short;
        text = printed h3 (
            append-IsText (prefix f t pid tag) cut
              (append-IsText text1 (spaced tag)
                (append-IsText (stamp f t) (process f pid) (stamp-IsText f t) process_text)
                (
                  (λ e. omega (arith, e)),
                  append-IsText tag (32 ∷ []) tag_text ((λ e. omega (arith, e)), tt),
                ))
              (take-IsText (max_line - 1 - l) message message_text));
      },
    )
  where
    process_text : IsText (process f pid)
    process_text = (
      (λ e. omega (arith, e)),
      (
        (λ e. omega (arith, e)),
        append-IsText (f.decimal pid) (93 ∷ []) (f.decimal-IsText pid)
            ((λ e. omega (arith, e)), tt),
      ),
    )

-- A test for texts.
abbrev is_text : List ℕ → Bool
is_text [] = true
is_text (c ∷ cs) = not (c == 0) && is_text cs

is_text_lem : (cs : List ℕ) → is_text cs ≡ true → IsText cs
is_text_lem [] h = tt
is_text_lem (c ∷ cs) h = ((λ e. ground (arith, h)), is_text_lem cs (ground (arith, h)))

listed :
    (level : ℕ) (tag : List ℕ)
    → get_elem? log_level_str level ≡ some tag
    → length tag ≡ 7
    → is_text tag ≡ true
    → (tag : List ℕ) × (get_elem? log_level_str level ≡ some tag) × (length tag ≡ 7) × IsText tag
listed level tag e seven h = (tag, e, seven, is_text_lem tag h)

log_level_str-IsText :
    (level : ℕ)
    → level ≤ 5
    → (tag : List ℕ) × (get_elem? log_level_str level ≡ some tag) × (length tag ≡ 7) × IsText tag
log_level_str-IsText zero h = listed 0 _ refl refl refl
log_level_str-IsText (suc zero) h = listed 1 _ refl refl refl
log_level_str-IsText (suc (suc zero)) h = listed 2 _ refl refl refl
log_level_str-IsText (suc (suc (suc zero))) h = listed 3 _ refl refl refl
log_level_str-IsText (suc (suc (suc (suc zero)))) h = listed 4 _ refl refl refl
log_level_str-IsText (suc (suc (suc (suc (suc zero))))) h = listed 5 _ refl refl refl
log_level_str-IsText (suc (suc (suc (suc (suc (suc n)))))) h = absurd (omega (arith, h))

sys_str-IsText : (to_abort : Bool) → (length (sys_str to_abort) ≡ 7) × IsText (sys_str to_abort)
sys_str-IsText true = (refl, is_text_lem (sys_str true) refl)
sys_str-IsText false = (refl, is_text_lem (sys_str false) refl)

-- In a year of four digits, with a process of ten digits at most and a message without NUL, `log_base` at one of
-- the six levels and `log_sys` never write outside their buffer of 256 bytes, whatever stood there and
-- however long the message is. What `%s` then prints of it is the time, the process and the tag of the
-- level, 46 bytes at most, and of the message what fits before the 256th byte.
pub base_text-sys_text :
    (f : Printf) (t : Time) (pid level : ℕ) (to_abort : Bool) (message bytes : List ℕ)
    → IsTime t
    → pid < 10 ^ 10
    → level ≤ 5
    → IsText message
    → length bytes ≡ max_line
    → Returns (base_text f t pid level message bytes) (λ b.
      (tag : List ℕ) × (get_elem? log_level_str level ≡ some tag) × Printed f t pid tag message b)
      × Returns
          (sys_text f t pid to_abort message bytes)
          (Printed f t pid (sys_str to_abort) message)
unfolding base_text sys_text level_tag
base_text-sys_text f t pid level to_abort message bytes time small known text size =
    let (tag, found, seven, plain) = log_level_str-IsText level known in
    let (b, e, h) = write_text-Printed f t pid tag message bytes time small seven plain text size in
    let (seven2, plain2) = sys_str-IsText to_abort in
    (
      (b, rw found e, (tag, found, h)),
      write_text-Printed f t pid (sys_str to_abort) message bytes time small seven2 plain2 text
          size,
    )

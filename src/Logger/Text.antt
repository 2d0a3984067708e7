-- ===== src/Logger/Text.antt =====
-- cppweb/Logger.cpp: the text of a message in the buffer `data` of `log_base` and `log_sys`. How numbers print
-- is the C library's, and the time and the process are the system's.
use cppweb.Base.{
  ℕ, suc, ◌+◌, ◌-◌, ◌^◌, ◌<◌, ◌≤◌, ◌≡◌, ◌≢◌, Bool, List, [], ◌∷◌, ◌++◌, length, take, sub_size,
  add_size, ◌==◌, if◌then◌else◌, Result, ok, fault, out_of_bounds, ◌>>=◌, get_elem?, none, some,
}
use cppweb.Bytes.{copy_to}

-- No byte of a text is NUL.
abbrev pub IsText : List ℕ → Type 0
IsText [] = Unit
IsText (c ∷ cs) = (c ≢ 0) × IsText cs

-- `%d`, and `%4d`, `%02d` and `%06ld` by what they fill with and their width, as printf(3) says.
pub record Printf : Type 0 where
  pub decimal : ℕ → List ℕ
  pub filled : ℕ → ℕ → ℕ → List ℕ
  pub length-decimal : (k n : ℕ) → n < 10 ^ suc k → length (decimal n) ≤ suc k
  pub length-filled : (fill w n : ℕ) → n < 10 ^ w → length (filled fill w n) ≡ w
  pub decimal-IsText : (n : ℕ) → IsText (decimal n)
  pub filled-IsText : (fill w n : ℕ) → fill ≢ 0 → IsText (filled fill w n)

-- What `gettimeofday` and `gmtime_r` answer.
pub record Time : Type 0 where
  pub year : ℕ
  pub mon : ℕ
  pub mday : ℕ
  pub hour : ℕ
  pub min : ℕ
  pub sec : ℕ
  pub usec : ℕ

abbrev pub max_line : ℕ
max_line = 256

abbrev pub space : ℕ
space = 32

abbrev pub zero_digit : ℕ
zero_digit = 48

-- "%4d%02d%02d %02d:%02d:%02d.%06ld"
abbrev pub stamp : Printf → Time → List ℕ
stamp f t =
    f.filled space 4 (t.year + 1900)
    ++ (f.filled zero_digit 2 (t.mon + 1)
        ++ (f.filled zero_digit 2 t.mday
            ++ (32
                ∷ (f.filled zero_digit 2 t.hour
                    ++ (58
                        ∷ (f.filled zero_digit 2 t.min
                            ++ (58
                                ∷ (f.filled zero_digit 2 t.sec
                                    ++ (46 ∷ f.filled zero_digit 6 t.usec)))))))))

-- `sprintf` of a text at an index of the buffer
unfoldable pub sprintf : ℕ → List ℕ → List ℕ → Result (List ℕ)
sprintf i text bytes = copy_to bytes i (text ++ (0 ∷ []))

-- `snprintf` of a text at an index, in `n` bytes
unfoldable pub snprintf : ℕ → ℕ → List ℕ → List ℕ → Result (List ℕ)
snprintf i n text bytes =
    if n == 0 then ok bytes else copy_to bytes i (take (n - 1) text ++ (0 ∷ []))

-- `timestamp(data, len)`, with the length that it returns
unfoldable pub timestamp : Printf → Time → ℕ → List ℕ → Result (List ℕ × ℕ)
timestamp f t len bytes = do
  bytes' ← snprintf 0 len (stamp f t) bytes
  ok (bytes', length (stamp f t))

-- " [%d]" and " %s "
abbrev pub process : Printf → ℕ → List ℕ
process f pid = 32 ∷ 91 ∷ (f.decimal pid ++ (93 ∷ []))

abbrev pub spaced : List ℕ → List ℕ
spaced tag = 32 ∷ (tag ++ (32 ∷ []))

abbrev pub log_level_str : List (List ℕ)
log_level_str =
    (91 ∷ 84 ∷ 82 ∷ 65 ∷ 67 ∷ 69 ∷ 93 ∷ [])
    ∷ (91 ∷ 68 ∷ 69 ∷ 66 ∷ 85 ∷ 71 ∷ 93 ∷ [])
    ∷ (91 ∷ 73 ∷ 78 ∷ 70 ∷ 79 ∷ 93 ∷ 32 ∷ [])
    ∷ (91 ∷ 87 ∷ 65 ∷ 82 ∷ 78 ∷ 93 ∷ 32 ∷ [])
    ∷ (91 ∷ 69 ∷ 82 ∷ 82 ∷ 79 ∷ 82 ∷ 93 ∷ [])
    ∷ (91 ∷ 70 ∷ 65 ∷ 84 ∷ 65 ∷ 76 ∷ 93 ∷ [])
    ∷ []

-- `log_level_str[level]`
unfoldable pub level_tag : ℕ → Result (List ℕ)
level_tag level = elim (get_elem? log_level_str level) [
  | none ↦ fault out_of_bounds
  | some tag ↦ ok tag
]

-- The tag of `log_sys`.
abbrev pub sys_str : Bool → List ℕ
sys_str to_abort =
    if to_abort
    then 91 ∷ 83 ∷ 89 ∷ 83 ∷ 70 ∷ 65 ∷ 93 ∷ []
    else 91 ∷ 83 ∷ 89 ∷ 83 ∷ 69 ∷ 82 ∷ 93 ∷ []

-- What `log_base` and `log_sys` write to `data`: the time, the process, the tag, and the message.
unfoldable pub write_text : Printf → Time → ℕ → List ℕ → List ℕ → List ℕ → Result (List ℕ)
write_text f t pid tag message bytes = do
  r ← timestamp f t 32 bytes
  d1 ← sprintf r.1 (process f pid) r.0
  let i1 = add_size r.1 (length (process f pid))
  d2 ← sprintf i1 (spaced tag) d1
  let i2 = add_size i1 (length (spaced tag))
  snprintf i2 (sub_size max_line i2) message d2

unfoldable pub base_text : Printf → Time → ℕ → ℕ → List ℕ → List ℕ → Result (List ℕ)
base_text f t pid level message bytes = do
  tag ← level_tag level
  write_text f t pid tag message bytes

unfoldable pub sys_text : Printf → Time → ℕ → Bool → List ℕ → List ℕ → Result (List ℕ)
sys_text f t pid to_abort message bytes = write_text f t pid (sys_str to_abort) message bytes

-- `%s`: the bytes before the first NUL
unfoldable pub c_string : List ℕ → List ℕ
c_string [] = []
c_string (c ∷ cs) = let rest = c_string cs in if c == 0 then [] else c ∷ rest

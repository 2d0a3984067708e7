-- ===== src/Logger.antt =====
-- cppweb/Logger.hpp and cppweb/Logger.cpp: which messages are written, and which end the process. The text of a
-- message stands in Logger.Text.
pub mod Text
pub mod Fits
pub mod Printing
use cppweb.Base.{
  ℕ, ◌≡◌, Bool, true, List, [], ◌∷◌, ◌++◌, arith, ltb, if◌then◌else◌, Result, ok, fault, exited,
}

-- `LOG_LEVEL`
abbrev pub log_level_trace : ℕ
log_level_trace = 0

abbrev pub log_level_fatal : ℕ
log_level_fatal = 5

-- `int`
pub data ℤ : Type 0 where
  pos negsuc : ℕ → ℤ

-- `written` lists the messages, each by the descriptor that it went to and its level, oldest first; the
-- messages of `log_sys` have none.
pub data Message : Type 0 where
  leveled : ℕ → ℕ → Message
  unleveled : ℕ → Message

pub record Logger : Type 0 where
  pub fd : ℕ
  pub level : ℕ
  pub written : List Message

unfoldable pub make : Logger
make = record { fd = 0; level = log_level_trace; written = [] }

unfoldable pub set_fd : ℤ → Logger → Logger
set_fd (pos fd) lg = record lg { fd = fd }
set_fd (negsuc n) lg = record lg { fd = 0 }

unfoldable pub set_level : ℕ → Logger → Logger
set_level level lg =
    let raised = if ltb level log_level_trace then log_level_trace else level in
    record lg { level = if ltb log_level_fatal raised then log_level_fatal else raised }

abbrev pub is_below : ℕ → Logger → Bool
is_below level lg = ltb level lg.level

unfoldable pub log_base : ℕ → Bool → Logger → Result Logger
log_base level to_abort lg =
    let lg' : Logger = record lg { written = lg.written ++ (leveled lg.fd level ∷ []) } in
    if is_below level lg then ok lg else (if to_abort then fault exited else ok lg')

unfoldable pub log_sys : Bool → Logger → Result Logger
log_sys to_abort lg =
    let lg' : Logger = record lg { written = lg.written ++ (unleveled lg.fd ∷ []) } in
    if to_abort then fault exited else ok lg'

-- Whatever level is set, a `FATAL` message ends the process.
pub log_base-set_level :
    (level : ℕ) (lg : Logger) → log_base log_level_fatal true (set_level level lg) ≡ fault exited
unfolding log_base set_level
log_base-set_level level lg = ground arith

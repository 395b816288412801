-- ===== src/LogManager/Writing.antt =====
-- What a call of the log writes (oryx/LogManager.cpp).
use oryxgame.Common.{
  ℕ, ◌+◌, ◌-◌, ◌≤◌, ◌<◌, ◌≡◌, ◌≢◌, refl, ap, ◌∙◌, inl, inr, Bool, true, false, none, some, List, [],
  ◌∷◌, arith, ltb, leb, if◌then◌else◌, length, length-take, get_or, take, Bool-cases,
}
use oryxgame.Common.Int.{ℤ, pos, ltb_ℤ}
use oryxgame.Common.Bytes.{Bytes}
use oryxgame.LogManager.{
  max_file_name_size, log_level_debug, Logger, Tm, Entry, logger, init_logger, log_file_name,
  log_line, write_log, log, log_manager, logic_name, epoll_name, async_name, init, log_if_inited,
  log_logic, log_epoll, log_async,
}
use oryxgame.LogManager.Names.{IsTm, length-log_file_name}

-- The line that a call adds to the log of this name.
abbrev pub entry : Tm → Bytes → ℕ → Bytes → Bytes → Entry
entry now path line message name = record {
  file = log_file_name name now;
  text = log_line now path line message;
}

abbrev pub written : Bool → Tm → Bytes → ℕ → Bytes → Bytes → Bool × List Entry
written opened now path line message name =
    if opened then (true, entry now path line message name ∷ []) else (false, [])

write_log_lem :
    (opened : Bool) (now : Tm) (path : Bytes) (line : ℕ) (message : Bytes) (l : Logger)
    → IsTm now
    → length l.file_name + 16 < max_file_name_size
    → write_log opened now path line message l
      ≡ some (written opened now path line message l.file_name)
unfolding write_log
write_log_lem opened now path line message l date short =
    let room : ltb (length (log_file_name l.file_name now)) max_file_name_size ≡ true =
      ground (arith, length-log_file_name l.file_name now date, short) in
    rw (room, write_log) refl

-- `log` until the year 9999 on a logger whose name leaves room for the 16 characters of the date and the
-- end: a message below the level of the logger is left out and counts as written; any other adds one line
-- to the file of the hour, or nothing and returns false if the file cannot be opened. With a null pointer
-- for the path or the format it returns false and writes nothing.
pub log-written :
    (opened : Bool) (now : Tm) (level : ℤ) (path : Bytes) (line : ℕ) (message : Bytes) (l : Logger)
    → IsTm now
    → length l.file_name + 16 < max_file_name_size
    → (log opened now level (some path) line (some message) l
        ≡ some (
            if ltb_ℤ level l.max_log_type
            then (true, [])
            else written opened now path line message l.file_name))
      × (log opened now level none line (some message) l ≡ some (false, []))
      × (log opened now level (some path) line none l ≡ some (false, []))
unfolding log
log-written opened now level path line message l date short = (
  elim (Bool-cases (ltb_ℤ level l.max_log_type)) [
    | inl below ↦ rw (below, log) refl
    | inr above ↦ rw (above, log) (write_log_lem opened now path line message l date short)
  ],
  refl,
  refl,
)

too_long : (n : ℕ) → max_file_name_size ≤ n → ltb n max_file_name_size ≡ false
too_long n h = ground (arith, h)

-- A name of 2032 to 2047 characters is accepted by `Logger::init`; `log` then writes the name of the file
-- behind the end of its array whenever the level is not left out, until the year 9999.
pub log-overflow :
    (opened : Bool) (now : Tm) (level max : ℤ) (path : Bytes) (line : ℕ) (message name : Bytes)
    (l : Logger)
    → IsTm now
    → length name < max_file_name_size
    → max_file_name_size ≤ length name + 16
    → ltb_ℤ level max ≡ false
    → ((init_logger (some name) max l).0 ≡ true)
      × (log opened now level (some path) line (some message) (init_logger (some name) max l).1
          ≡ none)
unfolding init_logger log write_log
log-overflow opened now level max path line message name l date fits long above =
    let accepted : leb max_file_name_size (length name) ≡ false = ground (arith, fits) in
    let text = take (max_file_name_size - 1) name in
    let full : ltb (length (log_file_name text now)) max_file_name_size ≡ false =
      too_long (length (log_file_name text now)) (
        omega (
          arith,
          length-log_file_name text now date,
          length-take (max_file_name_size - 1) name,
          fits,
          long,
        )) in
    rw (accepted, init_logger) (refl, rw (above, log) (rw (full, write_log) refl))

abbrev named : Bytes → Logger
named name = record { file_name = name; max_log_type = log_level_debug; is_init = true }

every_level :
    (opened : Bool) (now : Tm) (level : ℕ) (path : Bytes) (line : ℕ) (message name : Bytes)
    → IsTm now
    → length name + 16 < max_file_name_size
    → log opened now (pos level) (some path) line (some message) (named name)
      ≡ some (written opened now path line message name)
every_level opened now level path line message name date short =
    let above : ltb_ℤ (pos level) log_level_debug ≡ false = ground arith in
    (log-written opened now (pos level) path line message (named name) date short).0 ∙ rw above refl

-- Before `LogManager::init` every call returns false and writes nothing. After it, until the year 9999,
-- the three functions write each message of every level of `LOG_LEVEL` to files of their own, which are
-- never the same.
pub init-Separate :
    (opened : Bool) (now : Tm) (level : ℕ) (path : Bytes) (line : ℕ) (message : Bytes)
    → IsTm now
    → let m = (init log_manager).1 in
      (log_logic opened now (pos level) (some path) line (some message) log_manager
        ≡ some (false, []))
      × (log_epoll opened now (pos level) (some path) line (some message) log_manager
          ≡ some (false, []))
      × (log_async opened now (pos level) (some path) line (some message) log_manager
          ≡ some (false, []))
      × (log_logic opened now (pos level) (some path) line (some message) m
          ≡ some (written opened now path line message logic_name))
      × (log_epoll opened now (pos level) (some path) line (some message) m
          ≡ some (written opened now path line message epoll_name))
      × (log_async opened now (pos level) (some path) line (some message) m
          ≡ some (written opened now path line message async_name))
      × (log_file_name logic_name now ≢ log_file_name epoll_name now)
      × (log_file_name logic_name now ≢ log_file_name async_name now)
      × (log_file_name epoll_name now ≢ log_file_name async_name now)
unfolding init log_manager logger init_logger log_logic log_epoll log_async log_if_inited log
    log_file_name
init-Separate opened now level path line message date = (
  refl,
  refl,
  refl,
  every_level opened now level path line message logic_name date (ground arith),
  every_level opened now level path line message epoll_name date (ground arith),
  every_level opened now level path line message async_name date (ground arith),
  λ e. absurd (omega (arith, ap (λ text. get_or text 11 0) e)),
  λ e. absurd (omega (arith, ap (λ text. get_or text 11 0) e)),
  λ e. absurd (omega (arith, ap (λ text. get_or text 11 0) e)),
)

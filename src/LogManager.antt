-- ===== src/LogManager.antt =====
-- oryx/LogManager.h and oryx/LogManager.cpp: three log files, one for each hour. Text is a list of character
-- codes.
pub mod Names
pub mod Writing
pub mod Numbers
pub mod Entries
use oryxgame.Common.{
  ℕ, zero, suc, ◌+◌, ◌-◌, ◌/◌, ◌%◌, Bool, true, false, Option, none, some, List, [], ◌∷◌, ◌++◌, ltb,
  leb, ◌==◌, if◌then◌else◌, length, take, drop, get_or, replicate,
}
use oryxgame.Common.Int.{ℤ, pos, ltb_ℤ}
use oryxgame.Common.Bytes.{Bytes}

abbrev pub max_file_name_size : ℕ
max_file_name_size = 2048

-- `enum LOG_LEVEL`; any `int` may be cast to it.
abbrev pub log_level_debug : ℤ
log_level_debug = pos 0

abbrev pub log_level_info : ℤ
log_level_info = pos 1

abbrev pub log_level_warn : ℤ
log_level_warn = pos 2

abbrev pub log_level_error : ℤ
log_level_error = pos 3

-- `class Logger`; the name is the text up to the first zero of the array.
pub record Logger : Type 0 where
  pub file_name : Bytes
  pub max_log_type : ℤ
  pub is_init : Bool

-- What `localtime_r` stores, and the time of day.
pub record Tm : Type 0 where
  pub tm_year : ℕ
  pub tm_mon : ℕ
  pub tm_mday : ℕ
  pub tm_hour : ℕ
  pub tm_min : ℕ
  pub tm_sec : ℕ

-- Text that was added to the end of a file.
pub record Entry : Type 0 where
  pub file : Bytes
  pub text : Bytes

unfoldable pub logger : Logger
logger = record { file_name = []; max_log_type = log_level_debug; is_init = false }

-- `Logger::init`; `none` is the null pointer.
unfoldable pub init_logger : Option Bytes → ℤ → Logger → Bool × Logger
init_logger none max l = (false, l)
init_logger (some name) max l = if leb max_file_name_size (length name) then (false, l) else (
  true,
  record { file_name = take (max_file_name_size - 1) name; max_log_type = max; is_init = true },
)

-- The decimal digits of a number, for a fuel beyond it, and `%0<width>d`.
unfoldable pub digits : ℕ → ℕ → Bytes
digits zero n = []
digits (suc fuel) n =
    let rest = digits fuel (n / 10) in
    if ltb n 10 then (48 + n) ∷ [] else rest ++ ((48 + n % 10) ∷ [])

unfoldable pub padded : ℕ → ℕ → Bytes
padded width n = let text = digits (suc n) n in replicate (width - length text) 48 ++ text

-- `%d`
unfoldable pub decimal : ℕ → Bytes
decimal n = padded 1 n

-- `"%s-%04d%02d%02d-%02d.log"`
unfoldable pub log_file_name : Bytes → Tm → Bytes
log_file_name name now =
    name
    ++ (45 ∷ [])
    ++ padded 4 (now.tm_year + 1900)
    ++ padded 2 (now.tm_mon + 1)
    ++ padded 2 now.tm_mday
    ++ (45 ∷ [])
    ++ padded 2 now.tm_hour
    ++ (46 ∷ 108 ∷ 111 ∷ 103 ∷ [])

-- The loop that looks for the last `/` from the end of the path; it does not look at the first character.
unfoldable pub find_file_name : Bytes → ℕ → ℕ
find_file_name path zero = 0
find_file_name path (suc i) =
    let earlier = find_file_name path i in
    if get_or path (suc i) 0 == 47 then suc (suc i) else earlier

unfoldable pub file_name_begin : Bytes → Bytes
file_name_begin path = drop (find_file_name path (length path)) path

-- `"<%02d:%02d:%02d>[%s:%d]"`, then the message and the end of the line.
unfoldable pub log_line : Tm → Bytes → ℕ → Bytes → Bytes
log_line now path line message =
    (60 ∷ [])
    ++ padded 2 now.tm_hour
    ++ (58 ∷ [])
    ++ padded 2 now.tm_min
    ++ (58 ∷ [])
    ++ padded 2 now.tm_sec
    ++ (62 ∷ 91 ∷ [])
    ++ file_name_begin path
    ++ (58 ∷ [])
    ++ decimal line
    ++ (93 ∷ [])
    ++ message
    ++ (10 ∷ [])

-- `Logger::log` behind its tests: `none` is a write behind the end of `fileName`; `opened` tells whether
-- `fopen` succeeds.
unfoldable pub write_log : Bool → Tm → Bytes → ℕ → Bytes → Logger → Option (Bool × List Entry)
write_log opened now path line message l =
    if ltb (length (log_file_name l.file_name now)) max_file_name_size
    then some (
        if opened
        then (
          true,
          record { file = log_file_name l.file_name now; text = log_line now path line message }
              ∷ [],
        )
        else (false, []))
    else none

-- `Logger::log`; the message is what `vfprintf` makes of `pcContent` and its arguments.
unfoldable pub log :
    Bool → Tm → ℤ → Option Bytes → ℕ → Option Bytes → Logger → Option (Bool × List Entry)
log opened now level none line message l = some (false, [])
log opened now level (some path) line none l = some (false, [])
log opened now level (some path) line (some message) l =
    if ltb_ℤ level l.max_log_type then some (true, []) else write_log opened now path line message l

-- `Logger::debug`; `info`, `warn` and `error` are declared and have no body.
unfoldable pub debug :
    Bool → Tm → Option Bytes → ℕ → Option Bytes → Logger → Option (Bool × List Entry)
debug opened now path line message l =
    if l.is_init then log opened now log_level_debug path line message l else some (false, [])

-- `class LogManager`
pub record LogManager : Type 0 where
  pub logic_logger : Logger
  pub epoll_logger : Logger
  pub async_logger : Logger

unfoldable pub log_manager : LogManager
log_manager = record { logic_logger = logger; epoll_logger = logger; async_logger = logger }

-- `"../log/gameLogic"`, `"../log/gameEpoll"` and `"../log/gameAsync"`.
abbrev pub log_directory : Bytes
log_directory = 46 ∷ 46 ∷ 47 ∷ 108 ∷ 111 ∷ 103 ∷ 47 ∷ 103 ∷ 97 ∷ 109 ∷ 101 ∷ []

abbrev pub logic_name : Bytes
logic_name = log_directory ++ (76 ∷ 111 ∷ 103 ∷ 105 ∷ 99 ∷ [])

abbrev pub epoll_name : Bytes
epoll_name = log_directory ++ (69 ∷ 112 ∷ 111 ∷ 108 ∷ 108 ∷ [])

abbrev pub async_name : Bytes
async_name = log_directory ++ (65 ∷ 115 ∷ 121 ∷ 110 ∷ 99 ∷ [])

-- `LogManager::init`
unfoldable pub init : LogManager → Bool × LogManager
init m = (
  true,
  record {
    logic_logger = (init_logger (some logic_name) log_level_debug m.logic_logger).1;
    epoll_logger = (init_logger (some epoll_name) log_level_debug m.epoll_logger).1;
    async_logger = (init_logger (some async_name) log_level_debug m.async_logger).1;
  },
)

-- What `logEpoll` and `logAsync` do with their logger; `logLogic` tests both pointers first.
unfoldable pub log_if_inited :
    Bool → Tm → ℤ → Option Bytes → ℕ → Option Bytes → Logger → Option (Bool × List Entry)
log_if_inited opened now level path line message l =
    if l.is_init then log opened now level path line message l else some (false, [])

is_null : Option Bytes → Bool
is_null none = true
is_null (some text) = false

unfoldable pub log_logic :
    Bool → Tm → ℤ → Option Bytes → ℕ → Option Bytes → LogManager → Option (Bool × List Entry)
unfolding is_null
log_logic opened now level path line message m =
    if m.logic_logger.is_init
    then if is_null path
      then some (false, [])
      else if is_null message
      then some (false, [])
      else log opened now level path line message m.logic_logger
    else some (false, [])

unfoldable pub log_epoll :
    Bool → Tm → ℤ → Option Bytes → ℕ → Option Bytes → LogManager → Option (Bool × List Entry)
log_epoll opened now level path line message m =
    log_if_inited opened now level path line message m.epoll_logger

unfoldable pub log_async :
    Bool → Tm → ℤ → Option Bytes → ℕ → Option Bytes → LogManager → Option (Bool × List Entry)
log_async opened now level path line message m =
    log_if_inited opened now level path line message m.async_logger

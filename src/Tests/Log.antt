-- ===== src/Tests/Log.antt =====
-- Calls of the log (oryx/LogManager.cpp) on a spring evening.
use oryxgame.Common.{
  ℕ, ◌≡◌, ◌⊎◌, refl, true, false, none, some, [], ◌∷◌, arith, length-replicate, replicate,
}
use oryxgame.Common.Int.{ltb_ℤ}
use oryxgame.Common.Bytes.{Bytes}
use oryxgame.LogManager.{
  Logger, Tm, Entry, log_level_error, log, log_file_name, file_name_begin, find_file_name,
  init_logger, logger, padded, digits, log_level_info, log_level_warn,
}
use oryxgame.LogManager.Names.{IsTm}
use oryxgame.LogManager.Writing.{log-overflow}
use oryxgame.LogManager.Entries.{Shows, behind, Says, log_lem}

abbrev evening : Tm
evening = record { tm_year = 124; tm_mon = 3; tm_mday = 5; tm_hour = 21; tm_min = 7; tm_sec = 30 }

evening-IsTm : IsTm evening
evening-IsTm = (omega arith, omega arith, omega arith, omega arith)

-- `a-20240405-21.log`
file_name :
    log_file_name (97 ∷ []) evening
    ≡ 97 ∷ 45 ∷ 50 ∷ 48 ∷ 50 ∷ 52 ∷ 48 ∷ 52 ∷ 48 ∷ 53 ∷ 45 ∷ 50 ∷ 49 ∷ 46 ∷ 108 ∷ 111 ∷ 103 ∷ []
unfolding log_file_name padded digits
file_name = refl

-- `b/c` is shown as `c`, and `/c` as it is.
shown : file_name_begin (98 ∷ 47 ∷ 99 ∷ []) ≡ 99 ∷ []
unfolding file_name_begin find_file_name
shown = refl

shown_whole : file_name_begin (47 ∷ 99 ∷ []) ≡ 47 ∷ 99 ∷ []
unfolding file_name_begin find_file_name
shown_whole = refl

abbrev warnings : Logger
warnings = record { file_name = 97 ∷ []; max_log_type = log_level_warn; is_init = true }

-- The error `h` from `b/c`, line 12.
abbrev path : Bytes
path = 98 ∷ 47 ∷ 99 ∷ []

path-Shows : Shows path (99 ∷ [])
path-Shows = behind (98 ∷ []) (omega arith) ((λ e. absurd (omega (arith, e))), tt) refl

log_lem_example :
    (((ltb_ℤ log_level_error log_level_warn ≡ true)
        × (log true evening log_level_error (some path) 12 (some (104 ∷ [])) warnings
            ≡ some (true, [])))
      ⊎ ((ltb_ℤ log_level_error log_level_warn ≡ false)
          × (true ≡ false)
          × (log true evening log_level_error (some path) 12 (some (104 ∷ [])) warnings
              ≡ some (false, [])))
      ⊎ ((ltb_ℤ log_level_error log_level_warn ≡ false)
          × (true ≡ true)
          × ((e : Entry) × (log true evening log_level_error
                  (some path)
                  12
                  (some (104 ∷ []))
                  warnings
                ≡ some (true, e ∷ []))
              × Says evening (97 ∷ []) (99 ∷ []) 12 (104 ∷ []) e)))
    × (log true evening log_level_error none 12 (some (104 ∷ [])) warnings ≡ some (false, []))
    × (log true evening log_level_error (some path) 12 none warnings ≡ some (false, []))
log_lem_example =
    log_lem true evening log_level_error path 12 (104 ∷ []) warnings (99 ∷ []) evening-IsTm
      (omega arith) (omega arith) (omega arith) path-Shows

abbrev long_name : Bytes
long_name = replicate 2040 97

log-overflow_example :
    ((init_logger (some long_name) log_level_info logger).0 ≡ true)
    × (log true evening log_level_warn
          (some (99 ∷ []))
          12
          (some (104 ∷ []))
          (init_logger (some long_name) log_level_info logger).1
        ≡ none)
log-overflow_example =
    log-overflow true evening log_level_warn log_level_info (99 ∷ []) 12 (104 ∷ []) long_name logger
      evening-IsTm (omega (arith, length-replicate {A = ℕ} 2040 97))
      (omega (arith, length-replicate {A = ℕ} 2040 97)) refl

-- ===== src/Observability/Logging.antt =====
-- observability/logging.go, NewLogger: the level and the format that a configuration asks for. The
-- handlers are log/slog's.
use kroxy.Base.{ℕ, ◌+◌, ◌&&◌, map, Bytes, codes, str_eq, leb, if◌then◌else◌}

-- strings.ToLower on ASCII. No other character has one of the letters of the names that are compared
-- as its lower case.
abbrev lower : ℕ → ℕ
lower b = if leb 65 b && leb b 90 then b + 32 else b

abbrev pub to_lower : Bytes → Bytes
to_lower s = map lower s

pub data LogLevel : Type 0 where
  level_debug level_info level_warn level_error : LogLevel

pub data LogFormat : Type 0 where
  text json : LogFormat

unfoldable pub log_level : Bytes → LogLevel
log_level level =
    if str_eq (to_lower level) (codes "debug")
    then level_debug
    else if str_eq (to_lower level) (codes "warn")
    then level_warn
    else if str_eq (to_lower level) (codes "error")
    then level_error
    else level_info

unfoldable pub log_format : Bytes → LogFormat
log_format format = if str_eq (to_lower format) (codes "text") then text else json

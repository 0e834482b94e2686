-- ===== src/Log.antt =====
-- include/p2psc/log.h: the text of one record of the log.
pub mod Lines
use p2psc.Prelude.{
  ℕ, suc, ◌+◌, ◌++◌, Bool, true, false, Option, none, some, List, [], ◌∷◌, Bytes, codes, to_string,
  length, leb, ltb, ◌==◌, if◌then◌else◌,
}

-- `enum class level`
pub data Level : Type 0 where
  error warning info debug : Level

unfoldable pub level_number : Level → ℕ
level_number error = 0
level_number warning = 1
level_number info = 2
level_number debug = 3

-- `level_strings`
unfoldable pub level_string : Level → Bytes
level_string error = codes "ERROR"
level_string warning = codes "WARNING"
level_string info = codes "INFO"
level_string debug = codes "DEBUG"

-- `REPORTING_LEVEL`
abbrev pub reporting_level : Level
reporting_level = debug

-- The test of the macro `LOG`.
unfoldable pub is_reported : Level → Bool
is_reported l = if ltb (level_number reporting_level) (level_number l) then false else true

abbrev pub time_template : Bytes
time_template = codes "yyyy.mm.dd HH:MM:SS"

-- `strftime(time_str, size, …)`: the text with its terminator, or, where this is more than `size`
-- characters, 0 and an array whose contents are unspecified. `text` is the time by `date_time_format`,
-- and `unspecified` what the array then holds.
unfoldable pub strftime : ℕ → Bytes → Bytes → ℕ × Bytes
strftime size text unspecified =
    if leb (length text + 1) size then (length text, text) else (0, unspecified)

-- The result of `strftime` is not looked at.
unfoldable pub current_time : Bytes → Bytes → ℕ → Bytes
unfolding strftime
current_time text unspecified milliseconds =
    (strftime (length time_template) text unspecified).1 ++ (codes "." ++ to_string milliseconds)

abbrev pub newline : ℕ
newline = 10

abbrev add_char : ℕ → Bytes → Bytes
add_char c [] = if c == newline then [] else c ∷ []
add_char c (d ∷ rest) = c ∷ d ∷ rest

-- `find_last_not_of("\n")` and `erase`: the newlines at the end are dropped.
unfoldable pub strip : Bytes → Bytes
strip [] = []
strip (c ∷ s) = add_char c (strip s)

-- `Log::get`, up to the text of the statement.
unfoldable pub prefix : Bytes → Level → Bytes → Bytes → ℕ → Bytes
prefix time l thread file line =
    time
    ++ (codes " "
        ++ (level_string l
            ++ (codes " ("
                ++ (thread
                    ++ (codes ")\t" ++ (file ++ (codes ":" ++ (to_string line ++ codes ":\t"))))))))

-- What the destructor writes.
unfoldable pub record_text : Bytes → Bytes
record_text stream_string = strip stream_string ++ (newline ∷ [])

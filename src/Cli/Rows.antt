-- ===== src/Cli/Rows.antt =====
-- cli/main.go: the text that dayRow returns and that the commands print.
use golang_time_tracker.Base.{[], ◌∷◌, ◌++◌, none, some}
use golang_time_tracker.Base.Int.{ℤ}
use golang_time_tracker.Base.Text.{Text, codes}
use golang_time_tracker.Base.Decimal.{format_int}
use golang_time_tracker.Cli.{Row}
use golang_time_tracker.Cli.Bar.{bar}
use golang_time_tracker.Cli.Bar.Sgr.{sgr_bytes, bar_text}

abbrev bold_text : Text
bold_text = codes "1"

-- durationStr
unfoldable duration_text : Row → Text
duration_text row =
    format_int row.hours
    ++ (codes "h"
        ++ (format_int row.minutes
            ++ (codes "m" ++ elim row.to_go [
              | none ↦ []
              | some minutes ↦ codes " (" ++ (format_int minutes ++ codes "m to go)")
            ])))

-- sgr(boldText, setFGColor, barColor) and sgr(resetAll)
abbrev bold_bar : Text
bold_bar = sgr_bytes (bold_text ∷ codes "38;5" ∷ codes "220" ∷ [])

abbrev reset_text : Text
reset_text = sgr_bytes (codes "0" ∷ [])

-- What dayRow returns for the day that starts at `morning`; `date` is what the time library makes
-- of it by the format "Mon 01/02:".
unfoldable row_text : Text → ℤ → Row → Text
unfolding duration_text
row_text date morning row =
    bold_bar
    ++ (date
        ++ (reset_text
            ++ (codes " "
                ++ (bar_text (bar morning row.shown)
                    ++ (codes " " ++ (bold_bar ++ (duration_text row ++ reset_text)))))))

-- The line that the watched command prints for a watch, the one of the status command, and the
-- error of getCLIClient that names the last one of Status.
unfoldable watched_text : Text → Text → Text
watched_text dir label = dir ++ (codes " (" ++ (label ++ codes ")"))

unfoldable status_text : Text → Text
status_text uptime = codes "time-tracker has been up for " ++ uptime

unfoldable could_not_connect_text : Text → Text
could_not_connect_text inner =
    codes "could not connect to time-tracker watch daemon (even after attempting to start it): "
    ++ inner

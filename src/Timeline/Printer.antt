-- ===== src/Timeline/Printer.antt =====
-- timeline/ConsoleTimelinePrinter: the text that is written to the console.
pub mod Lines
use gateway_forge.Common.{
  ℕ, ◌+◌, ◌*◌, ◌-◌, ◌/◌, ◌%◌, ◌^◌, ◌≤◌, ◌<◌, ◌≡◌, refl, List, [], ◌∷◌, ◌++◌, arith, length,
  replicate,
}
use gateway_forge.Common.Words.{sub64}
use gateway_forge.Common.Text.{Text, lit, to_string}
use gateway_forge.Timeline.Builder.{TimelineEvent}
use gateway_forge.Timeline.Order.{IsChronological, NotBefore}

-- `std::setw(n)` with a fill character, to the right and to the left.
abbrev pub pad_left : ℕ → ℕ → Text → Text
pad_left c n s = replicate (n - length s) c ++ s

abbrev pub pad_right : ℕ → Text → Text
pad_right n s = s ++ replicate (n - length s) b' '

-- The parts of MM:SS.mmm.
abbrev pub minutes_of : ℕ → ℕ
minutes_of delta_us = delta_us / 60000000

abbrev pub seconds_of : ℕ → ℕ
seconds_of delta_us = delta_us % 60000000 / 1000000

abbrev pub millis_of : ℕ → ℕ
millis_of delta_us = delta_us % 1000000 / 1000

unfoldable pub format_delta : ℕ → Text
format_delta delta_us =
    pad_left b'0' 2 (to_string (minutes_of delta_us))
    ++ (lit ":"
        ++ (pad_left b'0' 2 (to_string (seconds_of delta_us))
            ++ (lit "." ++ pad_left b'0' 3 (to_string (millis_of delta_us)))))

-- The time of an event after the first one; the difference is that of uint64_t.
abbrev pub delta_of : ℕ → TimelineEvent → ℕ
delta_of base_ts event = sub64 event.timestamp_us base_ts

unfoldable pub event_line : ℕ → TimelineEvent → Text
event_line base_ts event =
    lit "["
    ++ (format_delta (delta_of base_ts event)
        ++ (lit "] "
            ++ (pad_right 4 event.transport
                ++ (lit " "
                    ++ (pad_right 30 (event.src ++ (lit " -> " ++ event.dst))
                        ++ (lit " "
                            ++ (pad_right 16 event.message_type
                                ++ (lit " " ++ (event.details ++ (b'\n' ∷ []))))))))))

abbrev pub event_lines : ℕ → List TimelineEvent → Text
event_lines base_ts [] = []
event_lines base_ts (event ∷ events) = event_line base_ts event ++ event_lines base_ts events

-- `Print`.
unfoldable pub print_events : List TimelineEvent → Text
print_events [] = lit "No events to display.\n"
print_events (event ∷ events) = event_lines event.timestamp_us (event ∷ events)

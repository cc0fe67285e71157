-- ===== src/Timeline/Printer/Lines.antt =====
-- What the printed lines say, read back, and held against the events.
use gateway_forge.Common.{
  ℕ, zero, suc, ◌+◌, ◌*◌, ◌-◌, ◌/◌, ◌^◌, ◌≤◌, ◌<◌, ◌≡◌, refl, sym, ◌∙◌, ◌⊎◌, inl, inr, List, [],
  ◌∷◌, ◌++◌, arith, length, length-append, replicate, length-replicate,
}
use gateway_forge.Common.Text.{Text, lit, to_string}
use gateway_forge.Common.Decimal.{
  AreDigits, read_digits, to_string-read, to_string-AreDigits, length-to_string, zeros-read,
  zeros-AreDigits,
}
use gateway_forge.Timeline.Builder.{TimelineEvent}
use gateway_forge.Timeline.Order.{IsChronological, NotBefore}
use gateway_forge.Timeline.Printer.{
  pad_left, pad_right, minutes_of, seconds_of, millis_of, format_delta, delta_of, event_line,
  event_lines, print_events,
}

-- The text is minutes of two digits or more, a colon, seconds of two digits, a point and milliseconds
-- of three digits, and stands for this many milliseconds.
abbrev pub IsClock : ℕ → Text → Type 0
IsClock ms clock =
    (minutes seconds millis : Text) × (clock
      ≡ minutes ++ (lit ":" ++ (seconds ++ (lit "." ++ millis))))
    × (AreDigits minutes × (2 ≤ length minutes))
    × (AreDigits seconds × (length seconds ≡ 2) × (read_digits 0 seconds < 60))
    × (AreDigits millis × (length millis ≡ 3))
    × ((read_digits 0 minutes * 60 + read_digits 0 seconds) * 1000 + read_digits 0 millis ≡ ms)

-- A text that is filled with spaces up to a width.
abbrev pub IsColumn : ℕ → Text → Text → Type 0
IsColumn width s column =
    (n : ℕ) × (column ≡ s ++ replicate n b' ')
    × (width ≤ length column)
    × ((n ≡ 0) ⊎ (length column ≡ width))

-- The line of an event: its time after `base` in milliseconds, its transport, its ends, the type of
-- its message and its details.
abbrev pub IsLineOf : ℕ → TimelineEvent → Text → Type 0
IsLineOf base e line =
    (clock transport ends message_type : Text) × (line
      ≡ lit "["
        ++ (clock
            ++ (lit "] "
                ++ (transport
                    ++ (lit " "
                        ++ (ends
                            ++ (lit " "
                                ++ (message_type ++ (lit " " ++ (e.details ++ lit "\n"))))))))))
    × IsClock ((e.timestamp_us - base) / 1000) clock
    × IsColumn 4 e.transport transport
    × IsColumn 30 (e.src ++ (lit " -> " ++ e.dst)) ends
    × IsColumn 16 e.message_type message_type

-- The text is one line for each event, in order, and nothing else.
abbrev pub ArePrinted : ℕ → List TimelineEvent → Text → Type 0
ArePrinted base [] text = text ≡ []
ArePrinted base (e ∷ es) text =
    (line rest : Text) × (text ≡ line ++ rest) × IsLineOf base e line × ArePrinted base es rest

abbrev pub AreTimes : List TimelineEvent → Type 0
AreTimes [] = Unit {0}
AreTimes (e ∷ es) = (e.timestamp_us < 2 ^ 64) × AreTimes es

padded-read : (w n : ℕ) → n < 2 ^ 64 → read_digits 0 (pad_left b'0' w (to_string n)) ≡ n
padded-read w n small = zeros-read (w - length (to_string n)) (to_string n) ∙ to_string-read n small

padded-AreDigits : (w n : ℕ) → AreDigits (pad_left b'0' w (to_string n))
padded-AreDigits w n =
    zeros-AreDigits (w - length (to_string n)) (to_string n) (to_string-AreDigits n)

length-pad_left : (c w : ℕ) (s : Text) → length (pad_left c w s) ≡ (w - length s) + length s
length-pad_left c w s =
    omega (
      arith,
      length-append (replicate (w - length s) c) s,
      length-replicate {A = ℕ} (w - length s) c,
    )

pad_right-IsColumn : (w : ℕ) (s : Text) → IsColumn w s (pad_right w s)
pad_right-IsColumn w s = (w - length s, refl, omega (arith, size), tight (w - length s) refl)
  where
    size : length (pad_right w s) ≡ length s + (w - length s)
    size = omega (
      arith,
      length-append s (replicate (w - length s) b' '),
      length-replicate {A = ℕ} (w - length s) b' ',
    )

    tight : (n : ℕ) → n ≡ w - length s → (w - length s ≡ 0) ⊎ (length (pad_right w s) ≡ w)
    tight zero e = inl (omega arith)
    tight (suc n) e = inr (omega (arith, size))

format_delta-IsClock : (delta : ℕ) → delta < 2 ^ 64 → IsClock (delta / 1000) (format_delta delta)
unfolding format_delta
format_delta-IsClock delta small = (
  pad_left b'0' 2 (to_string (minutes_of delta)),
  pad_left b'0' 2 (to_string (seconds_of delta)),
  pad_left b'0' 3 (to_string (millis_of delta)),
  refl,
  (
    padded-AreDigits 2 (minutes_of delta),
    omega (arith, length-pad_left b'0' 2 (to_string (minutes_of delta))),
  ),
  (
    padded-AreDigits 2 (seconds_of delta),
    omega (
      arith,
      length-pad_left b'0' 2 (to_string (seconds_of delta)),
      length-to_string 1 (seconds_of delta) (omega arith),
    ),
    omega (arith, padded-read 2 (seconds_of delta) (omega arith)),
  ),
  (
    padded-AreDigits 3 (millis_of delta),
    omega (
      arith,
      length-pad_left b'0' 3 (to_string (millis_of delta)),
      length-to_string 2 (millis_of delta) (omega arith),
    ),
  ),
  rw
      (
        padded-read 2 (minutes_of delta) (omega arith),
        padded-read 2 (seconds_of delta) (omega arith),
        padded-read 3 (millis_of delta) (omega arith),
      )
      (omega arith),
)

event_line-IsLineOf :
    (base : ℕ) (e : TimelineEvent)
    → base ≤ e.timestamp_us
    → e.timestamp_us < 2 ^ 64
    → IsLineOf base e (event_line base e)
unfolding event_line
event_line-IsLineOf base e order small = (
  format_delta (delta_of base e),
  pad_right 4 e.transport,
  pad_right 30 (e.src ++ (lit " -> " ++ e.dst)),
  pad_right 16 e.message_type,
  refl,
  rw (sym elapsed) (format_delta-IsClock (delta_of base e) (omega arith)),
  pad_right-IsColumn 4 e.transport,
  pad_right-IsColumn 30 (e.src ++ (lit " -> " ++ e.dst)),
  pad_right-IsColumn 16 e.message_type,
)
  where
    elapsed : delta_of base e ≡ e.timestamp_us - base
    elapsed = omega arith

event_lines-ArePrinted :
    (base : ℕ) (es : List TimelineEvent)
    → NotBefore base es
    → AreTimes es
    → ArePrinted base es (event_lines base es)
event_lines-ArePrinted base [] n small = refl
event_lines-ArePrinted base (e ∷ es) n small = (
  event_line base e,
  event_lines base es,
  refl,
  event_line-IsLineOf base e n.0 small.0,
  event_lines-ArePrinted base es n.1 small.1,
)

-- For events in the order of time whose times are uint64_t values, `Print` writes one line for each
-- event, in order, and nothing else. The line shows the transport, the ends and the type of the
-- message in columns of 4, 30 and 16 characters or more, and the details; and its clock MM:SS.mmm,
-- read back from its digits, is the time of the event after the first one in whole milliseconds, with
-- fewer than 60 seconds beside the minutes.
pub print_events-ArePrinted :
    (event : TimelineEvent) (events : List TimelineEvent)
    → IsChronological (event ∷ events)
    → AreTimes (event ∷ events)
    → ArePrinted event.timestamp_us (event ∷ events) (print_events (event ∷ events))
unfolding print_events
print_events-ArePrinted event events order small =
    event_lines-ArePrinted event.timestamp_us (event ∷ events) (omega arith, order.0) small

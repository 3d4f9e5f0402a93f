-- ===== src/Clock.antt =====
-- Instants, dates and times of the day. A `datetime` is a number of microseconds since the epoch in
-- the server's time zone, which the settings fix to UTC; a `timedelta` is a number of microseconds.
use juris.Base.{ℕ, ◌%◌, ◌+◌, ◌/◌}

-- `timedelta(seconds=1)`
abbrev pub second : ℕ
second = 1000000

-- `timedelta(minutes=1)`
abbrev pub minute : ℕ
minute = 60000000

-- `timedelta(hours=1)`
abbrev pub hour : ℕ
hour = 3600000000

-- `timedelta(days=1)`
abbrev pub day : ℕ
day = 86400000000

-- `datetime.date()`, as a number of days since the epoch
unfoldable pub date : ℕ → ℕ
date t = t / day

-- `datetime.time()`
unfoldable pub time : ℕ → ℕ
time t = t % day

-- `date.weekday()`: the epoch was a Thursday, and Monday is 0
unfoldable pub weekday : ℕ → ℕ
weekday d = (d + 3) % 7

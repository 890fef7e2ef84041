-- ===== src/Tests/Rest.antt =====
-- The times and the random timeouts.
use plib.Base.{◌++◌, List, [], ◌∷◌, ℕ, ◌+◌, ◌*◌, ◌^◌, ◌≤◌, ◌≡◌, ok, arith}
use plib.FdUtils.Time.{Tm, current_time_utc}
use plib.FdUtils.Format.{Digits, IsTm, current_time_utc-Digits}
use plib.FdUtils.{upd_election_time_nano}
use plib.FdUtils.Laws.{upd_election_time_bounds}

upd_election_time_bounds_example :
    (t : ℕ) × (upd_election_time_nano 12345 1_600_000_000 7 ≡ ok t)
    × (1_600_000_000 * 10 ^ 9 + 7 + 10 ^ 9 ≤ t)
    × (t ≤ 1_600_000_000 * 10 ^ 9 + 7 + 2 * 10 ^ 9)
upd_election_time_bounds_example =
    upd_election_time_bounds 12345 1_600_000_000 7 (omega arith) (omega arith)

-- 13 March 2020, 09:05:07.
abbrev sample_time : Tm
sample_time = record {
  tm_year = 120;
  tm_mon = 2;
  tm_mday = 13;
  tm_hour = 9;
  tm_min = 5;
  tm_sec = 7;
}

sample_time-IsTm : IsTm sample_time
sample_time-IsTm = record {
  year_fits = omega arith;
  month_fits = omega arith;
  day_fits = omega arith;
  hour_fits = omega arith;
  minute_fits = omega arith;
  second_fits = omega arith;
}

current_time_utc-Digits_example :
    (year month day hour minute second : List ℕ) × (current_time_utc sample_time
      ≡ year
        ++ (b'-' ∷ month)
        ++ (b'-' ∷ day)
        ++ (b'T' ∷ hour)
        ++ (b':' ∷ minute)
        ++ (b':' ∷ second)
        ++ (b'.' ∷ b'0' ∷ b'0' ∷ b'0' ∷ b'Z' ∷ []))
    × Digits 4 1120 year
    × Digits 2 3 month
    × Digits 2 13 day
    × Digits 2 9 hour
    × Digits 2 5 minute
    × Digits 2 7 second
current_time_utc-Digits_example = current_time_utc-Digits sample_time sample_time-IsTm

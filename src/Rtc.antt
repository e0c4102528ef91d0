-- ===== src/Rtc.antt =====
-- rtc.c: the real-time clock. One `rtc_read_raw` gives one sample; the samples, one for each
-- call, and the value of status register B are parameters.
pub mod Formats
use master_os.Base.{
  ℕ, zero, suc, ◌+◌, ◌*◌, ◌^◌, Bool, true, false, ◌&&◌, not, Option, none, some, bit_and, ltb, ◌==◌,
  if◌then◌else◌, u8, ◌>>>◌,
}

-- `RTCTime`, of bytes.
pub record RtcTime : Type 0 where
  pub seconds : ℕ
  pub minutes : ℕ
  pub hours : ℕ
  pub day : ℕ
  pub month : ℕ
  pub year : ℕ

unfoldable pub bcd_to_bin : ℕ → ℕ
bcd_to_bin bcd = u8 ((bcd >>> 4) * 10 + bit_and bcd 0x0F)

-- The loop's condition, negated.
abbrev pub same_time : RtcTime → RtcTime → Bool
same_time t last =
    t.seconds == last.seconds
    && t.minutes == last.minutes
    && t.hours == last.hours
    && t.day == last.day
    && t.month == last.month
    && t.year == last.year

-- Samples are taken until two in a row agree; `none` means that the rounds ran out.
unfoldable pub take_samples : (samples : ℕ → RtcTime) → (rounds k : ℕ) → Option RtcTime
take_samples samples zero k = none
take_samples samples (suc rounds) k =
    let rest = take_samples samples rounds (k + 1) in
    if same_time (samples (k + 1)) (samples k) then some (samples (k + 1)) else rest

abbrev pub is_binary : ℕ → Bool
is_binary stat_b = not (bit_and stat_b 0x04 == 0)

abbrev pub is_24_hours : ℕ → Bool
is_24_hours stat_b = not (bit_and stat_b 0x02 == 0)

abbrev pub decoded : ℕ → ℕ → ℕ
decoded stat_b n = if is_binary stat_b then n else bcd_to_bin n

-- `if (pm && hours < 12) hours += 12; if (!pm && hours == 12) hours = 0;`
abbrev pub to_24_hours : (pm hours : ℕ) → ℕ
to_24_hours pm hours =
    let hours' = if not (pm == 0) && ltb hours 12 then u8 (hours + 12) else hours in
    if pm == 0 && hours' == 12 then 0 else hours'

unfoldable pub convert_hours : (stat_b hours : ℕ) → ℕ
unfolding bcd_to_bin
convert_hours stat_b hours =
    if is_24_hours stat_b
    then decoded stat_b hours
    else to_24_hours (bit_and hours 0x80) (decoded stat_b (bit_and hours 0x7F))

unfoldable pub convert_time : ℕ → RtcTime → RtcTime
unfolding convert_hours
convert_time stat_b t = record {
  seconds = decoded stat_b t.seconds;
  minutes = decoded stat_b t.minutes;
  hours = convert_hours stat_b t.hours;
  day = decoded stat_b t.day;
  month = decoded stat_b t.month;
  year = decoded stat_b t.year;
}

abbrev pub converted : ℕ → Option RtcTime → Option RtcTime
converted stat_b none = none
converted stat_b (some t) = some (convert_time stat_b t)

unfoldable pub rtc_read : (samples : ℕ → RtcTime) → (stat_b rounds : ℕ) → Option RtcTime
unfolding convert_time take_samples
rtc_read samples stat_b rounds = converted stat_b (take_samples samples rounds 0)

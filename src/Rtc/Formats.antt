-- ===== src/Rtc/Formats.antt =====
-- The four formats of the clock's registers, and the time that is read from them.
use master_os.Base.{
  ℕ, zero, suc, ◌+◌, ◌*◌, ◌/◌, ◌%◌, ◌<◌, ◌≤◌, ◌≡◌, refl, ap, ◌∙◌, inl, inr, arith, true, false,
  Bool-cases, some, bit_and, leb, ◌==◌, if◌then◌else◌,
}
use master_os.Base.Bits.{and_nibble, and_low_seven, and_top_bit}
use master_os.Rtc.{
  RtcTime, bcd_to_bin, same_time, take_samples, is_binary, is_24_hours, decoded, to_24_hours,
  convert_hours, convert_time, converted, rtc_read,
}

-- A number from 0 to 99 as two decimal digits of four bits.
abbrev pub to_bcd : ℕ → ℕ
to_bcd n = n / 10 * 16 + n % 10

abbrev pub encoded : ℕ → ℕ → ℕ
encoded stat_b n = if is_binary stat_b then n else to_bcd n

-- The hour as the clock holds it: on a 12-hour clock 12, 1, ..., 11, with bit 7 set from noon on.
abbrev pub encoded_hours : ℕ → ℕ → ℕ
encoded_hours stat_b h =
    if is_24_hours stat_b
    then encoded stat_b h
    else encoded stat_b (if h % 12 == 0 then 12 else h % 12) + (if leb 12 h then 0x80 else 0)

abbrev pub encode : ℕ → RtcTime → RtcTime
encode stat_b t = record {
  seconds = encoded stat_b t.seconds;
  minutes = encoded stat_b t.minutes;
  hours = encoded_hours stat_b t.hours;
  day = encoded stat_b t.day;
  month = encoded stat_b t.month;
  year = encoded stat_b t.year;
}

bcd_to_bin-to_bcd : (n : ℕ) → n < 100 → bcd_to_bin (to_bcd n) ≡ n
unfolding bcd_to_bin
bcd_to_bin-to_bcd n h = ground (arith, and_nibble (to_bcd n))

decoded-encoded : (stat_b n : ℕ) → n < 100 → decoded stat_b (encoded stat_b n) ≡ n
decoded-encoded stat_b n h = elim (Bool-cases (is_binary stat_b)) [
  | inl e ↦ rw e refl
  | inr e ↦ rw e (bcd_to_bin-to_bcd n h)
]

-- The hour of a half of the day.
abbrev half : ℕ → ℕ
half h = if h % 12 == 0 then 12 else h % 12

half-lt : (h : ℕ) → half h < 13
half-lt h = ground arith

half-pos : (h : ℕ) → 0 < half h
half-pos h = ground arith

encoded-lt : (stat_b n : ℕ) → n < 13 → encoded stat_b n < 128
encoded-lt stat_b n h = elim (Bool-cases (is_binary stat_b)) [
  | inl e ↦ rw e (omega arith)
  | inr e ↦ rw e (omega arith)
]

-- The low seven bits and bit 7 of the register.
low_bits : (e h : ℕ) → e < 128 → bit_and (e + (if leb 12 h then 0x80 else 0)) 0x7F ≡ e
low_bits e h lt = ground (arith, and_low_seven e, and_low_seven (e + 0x80), and_low_seven (e + 0))

top_bit :
    (e h : ℕ)
    → e < 128
    → bit_and (e + (if leb 12 h then 0x80 else 0)) 0x80 ≡ (if leb 12 h then 0x80 else 0)
top_bit e h lt = ground (arith, and_top_bit e, and_top_bit (e + 0x80), and_top_bit (e + 0))

to_24_hours-half : (h : ℕ) → h < 24 → to_24_hours (if leb 12 h then 0x80 else 0) (half h) ≡ h
to_24_hours-half h lt = ground arith

half_day :
    (stat_b h : ℕ)
    → h < 24
    → to_24_hours
        (bit_and (encoded stat_b (half h) + (if leb 12 h then 0x80 else 0)) 0x80)
        (decoded stat_b (bit_and (encoded stat_b (half h) + (if leb 12 h then 0x80 else 0)) 0x7F))
      ≡ h
half_day stat_b h lt =
    let small : encoded stat_b (half h) < 128 = encoded-lt stat_b (half h) (half-lt h) in
    let number : half h < 100 = omega (arith, half-lt h) in
    rw
      (
        low_bits (encoded stat_b (half h)) h small,
        top_bit (encoded stat_b (half h)) h small,
        decoded-encoded stat_b (half h) number,
      )
      (to_24_hours-half h lt)

convert_hours-encoded : (stat_b h : ℕ) → h < 24 → convert_hours stat_b (encoded_hours stat_b h) ≡ h
unfolding convert_hours
convert_hours-encoded stat_b h lt = elim (Bool-cases (is_24_hours stat_b)) [
  | inl e ↦ rw e (decoded-encoded stat_b h (omega arith))
  | inr e ↦ rw e (half_day stat_b h lt)
]

-- A time of day and date, with a year of two digits.
pub record IsTime (t : RtcTime) : Type 0 where
  pub seconds : t.seconds < 60
  pub minutes : t.minutes < 60
  pub hours : t.hours < 24
  pub day : t.day < 32
  pub month : t.month < 13
  pub year : t.year < 100

-- Whatever format status register B says the clock is in (binary or decimal digits, 12 or 24
-- hours), the registers that hold a time in that format are read as that time.
convert_time-encode :
    (stat_b : ℕ) (t : RtcTime) → IsTime t → convert_time stat_b (encode stat_b t) ≡ t
unfolding convert_time
convert_time-encode stat_b t v =
    rw
      (
        decoded-encoded stat_b t.seconds (omega (arith, v.seconds)),
        decoded-encoded stat_b t.minutes (omega (arith, v.minutes)),
        convert_hours-encoded stat_b t.hours v.hours,
        decoded-encoded stat_b t.day (omega (arith, v.day)),
        decoded-encoded stat_b t.month (omega (arith, v.month)),
        decoded-encoded stat_b t.year v.year,
      )
      refl

same_time_self : (t : RtcTime) → same_time t t ≡ true
same_time_self t = ground arith

take_samples-first :
    (samples : ℕ → RtcTime) (rounds k d : ℕ) (t : RtcTime)
    → d < rounds
    → ((j : ℕ) → k ≤ j → j < k + d → same_time (samples (j + 1)) (samples j) ≡ false)
    → samples (k + d) ≡ t
    → samples (k + d + 1) ≡ t
    → take_samples samples rounds k ≡ some t
unfolding take_samples
take_samples-first samples zero k d t lt differ e e' = absurd (omega arith)
take_samples-first samples (suc rounds) k zero t lt differ e e' =
    let here : k ≡ k + 0 = omega arith in
    let now : samples k ≡ t = ap samples here ∙ e in
    let next : samples (k + 1) ≡ t = ap (λ n. samples (n + 1)) here ∙ e' in
    rw (now, next, same_time_self t) refl
take_samples-first samples (suc rounds) k (suc d) t lt differ e e' =
    rw (differ k (omega arith) (omega arith)) (
      take_samples-first samples rounds (k + 1) d t (omega arith)
        (λ j p q. differ j (omega arith) (omega arith)) (ap samples at ∙ e)
        (ap (λ n. samples (n + 1)) at ∙ e'))
  where
    at : k + 1 + d ≡ k + suc d
    at = omega arith

-- If the samples are first the same twice in a row at sample `k`, and that sample is a time in
-- the format of register B, then `rtc_read` ends within `k + 1` rounds and gives that time.
pub rtc_read-gives :
    (samples : ℕ → RtcTime) (stat_b rounds k : ℕ) (t : RtcTime)
    → IsTime t
    → k < rounds
    → ((j : ℕ) → j < k → same_time (samples (j + 1)) (samples j) ≡ false)
    → samples k ≡ encode stat_b t
    → samples (k + 1) ≡ encode stat_b t
    → rtc_read samples stat_b rounds ≡ some t
unfolding rtc_read
rtc_read-gives samples stat_b rounds k t v lt differ e e' =
    ap (converted stat_b) settled ∙ ap some (convert_time-encode stat_b t v)
  where
    start : 0 + k ≡ k
    start = omega arith

    settled : take_samples samples rounds 0 ≡ some (encode stat_b t)
    settled =
        take_samples-first samples rounds 0 k (encode stat_b t) lt (λ j p q. differ j (omega arith))
          (ap samples start ∙ e) (ap (λ n. samples (n + 1)) start ∙ e')

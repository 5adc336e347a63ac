-- ===== src/Tools/WindowedMinMax.antt =====
-- WindowedMinMax of SiameseTools.h, for unsigned values: three samples, the best one first. Times are
-- 64-bit and their differences wrap around.
pub mod Laws
use siamese.Prelude.{
  ℕ, ◌+◌, ◌-◌, ◌/◌, ◌%◌, ◌^◌, Bool, not, ◌&&◌, leb, ltb, ◌==◌, if◌then◌else◌, u64,
}

-- WindowedMinCompare and WindowedMaxCompare.
pub data Comparison : Type 0 where
  min_compare : Comparison
  max_compare : Comparison

unfoldable pub compare_values : Comparison → ℕ → ℕ → Bool
compare_values min_compare x y = leb x y
compare_values max_compare x y = leb y x

pub record Sample : Type 0 where
  pub value : ℕ
  pub timestamp : ℕ

abbrev pub timeout_expired : Sample → ℕ → ℕ → Bool
timeout_expired sample now timeout = ltb timeout (u64 (now + 2 ^ 64 - sample.timestamp))

pub record Samples : Type 0 where
  pub first : Sample
  pub second : Sample
  pub third : Sample

unfoldable pub is_valid : Samples → Bool
is_valid samples = not (samples.first.value == 0)

unfoldable pub get_best : Samples → ℕ
get_best samples = samples.first.value

unfoldable pub reset : Sample → Samples
reset sample = record { first = sample; second = sample; third = sample }

-- The insertion of Update, into the sorted samples.
unfoldable pub insert : Comparison → Sample → Samples → Samples
insert c sample samples =
    if compare_values c sample.value samples.second.value
    then record samples { second = sample; third = sample }
    else if compare_values c sample.value samples.third.value
    then record samples { third = sample }
    else samples

-- What Update does with samples that have been the best for too long.
unfoldable pub expire : Sample → ℕ → Samples → Samples
expire sample window samples =
    if timeout_expired samples.first sample.timestamp window
    then if timeout_expired samples.second sample.timestamp window
      then record { first = samples.third; second = sample; third = sample }
      else record { first = samples.second; second = samples.third; third = sample }
    else if samples.second.value == samples.first.value
        && timeout_expired samples.second sample.timestamp (window / 4)
    then record samples { second = sample; third = sample }
    else if samples.third.value == samples.second.value
        && timeout_expired samples.third sample.timestamp (window / 2)
    then record samples { third = sample }
    else samples

unfoldable pub update : Comparison → ℕ → ℕ → ℕ → Samples → Samples
update c value timestamp window samples =
    let sample : Sample = record { value = value; timestamp = timestamp } in
    if not (is_valid samples)
    then reset sample
    else if compare_values c value samples.first.value
    then reset sample
    else if timeout_expired samples.third timestamp window
    then reset sample
    else expire sample window (insert c sample samples)

-- ===== src/LogStore/Purge/Ages.antt =====
-- pkg/logstore/purge.go: which files a retention finds old.
use casa_os_app_management.Prelude.{day_length}
use casa_os_app_management.Prelude.{ℕ, ◌+◌, ◌/◌, ◌%◌, ◌≤◌, ◌<◌, ◌≡◌, ◌≢◌, true, false, arith}
use casa_os_app_management.LogStore.Purge.{FileInfo, is_aged}

-- the number of a time's day, from the start of year 1
abbrev pub day_number : ℕ → ℕ
day_number t = t / day_length

abbrev pub IsMidnight : FileInfo → Type 0
IsMidnight f = f.day % day_length ≡ 0

-- `retentionDays` days back from today, the day of the file is not among them
abbrev pub IsOld : ℕ → ℕ → FileInfo → Type 0
IsOld now retention f =
    (0 < retention) × (f.day ≢ 0) × (day_number f.day + retention ≤ day_number now)

module _ (now retention : ℕ) where
  pub aged→old :
      (f : FileInfo) → is_aged now retention f ≡ true → IsMidnight f → IsOld now retention f
  unfolding is_aged
  aged→old f h m = ground arith

  pub old→aged :
      (f : FileInfo) → is_aged now retention f ≡ false → IsMidnight f → ¬ IsOld now retention f
  unfolding is_aged
  old→aged f h m o = ground arith

  pub aged_before :
      (f g : FileInfo)
      → is_aged now retention f ≡ true
      → is_aged now retention g ≡ false
      → g.day ≢ 0
      → f.day < g.day
  unfolding is_aged
  aged_before f g a b z = ground arith

-- ===== src/Tm/Tests.antt =====
-- The day that the year 1900 does not have.
use bee.Common.{◌≤◌, ◌≡◌, ◌↔◌, true, get_or}
use bee.Tm.{date_is_valid, month_lengths, is_leap, date_is_valid_iff}

date_is_valid_iff_example :
    (date_is_valid 1900 2 29 ≡ true)
    ↔ ((1583 ≤ 1900) × ((1 ≤ 29) × (29 ≤ get_or (month_lengths (is_leap 1900)) 2 0)))
date_is_valid_iff_example = date_is_valid_iff 1900 2 29

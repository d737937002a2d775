-- ===== src/Supervisor/PhaseSince.antt =====
-- src/supervisor/watchdog.ts: the time in a heartbeat, as text.
use hera_v.Shared.{
  ℕ, ◌+◌, ◌*◌, ◌-◌, Bool, true, false, ◌&&◌, Option, none, some, List, [], ◌∷◌, if◌then◌else◌, leb,
  ◌==◌, all, length, take, drop,
}
use hera_v.Shared.Text.{Text}

abbrev is_digit : ℕ → Bool
is_digit c = leb 48 c && leb c 57

abbrev number_from : ℕ → Text → ℕ
number_from n [] = n
number_from n (c ∷ s) = number_from (n * 10 + (c - 48)) s

-- `.` and one to three digits, or nothing.
fraction : Text → Option ℕ
fraction [] = some 0
fraction (c ∷ s) =
    if (c == 46) && leb 1 (length s) && leb (length s) 3 && all is_digit s
    then some (number_from 0 s)
    else none

abbrev shape : List ℕ
shape =
    48 ∷ 48 ∷ 48 ∷ 48 ∷ 45 ∷ 48 ∷ 48 ∷ 45 ∷ 48 ∷ 48 ∷ 32 ∷ 48 ∷ 48 ∷ 58 ∷ 48 ∷ 48 ∷ 58 ∷ 48 ∷ 48
    ∷ []

-- The pattern up to the seconds, where 48 stands for a digit.
abbrev has_shape : List ℕ → Text → Bool
has_shape [] s = true
has_shape (p ∷ ps) [] = false
has_shape (p ∷ ps) (c ∷ s) = (if p == 48 then is_digit c else c == p) && has_shape ps s

abbrev part : ℕ → ℕ → Text → ℕ
part start len s = number_from 0 (take len (drop start s))

pub record DateParts : Type 0 where
  pub year : ℕ
  pub month : ℕ
  pub day : ℕ
  pub hours : ℕ
  pub minutes : ℕ
  pub seconds : ℕ

-- `new Date(...).getTime()` in local time is the parameter `epoch`; it is given the month as it is
-- written, and takes 1 from it.
pub parse_phase_since : (DateParts → ℕ → ℕ) → Option Text → Option ℕ
unfolding fraction
parse_phase_since epoch none = none
parse_phase_since epoch (some ts) =
    let date : DateParts = record {
      year = part 0 4 ts;
      month = part 5 2 ts;
      day = part 8 2 ts;
      hours = part 11 2 ts;
      minutes = part 14 2 ts;
      seconds = part 17 2 ts;
    } in
    if has_shape shape ts
    then elim (fraction (drop 19 ts)) [ none ↦ none | some ms ↦ some (epoch date ms) ]
    else none

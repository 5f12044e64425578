-- ===== src/Demo/Numbers.antt =====
-- `n, _ := strconv.Atoi(s)` of microservice-demo/main.go: 0 for a text that is no number, and the
-- nearest int64 for one that is out of range.
use feature_flags_control_pl.Shared.{
  ℕ, zero, suc, ◌-◌, ◌^◌, Option, none, some, [], ◌∷◌, Str, leb, ◌==◌, if◌then◌else◌,
}
use feature_flags_control_pl.Shared.Int.{ℤ, pos, negsuc}
use feature_flags_control_pl.Store.Resp.{unsigned}

pub saturated : Option ℕ → ℤ
saturated none = pos 0
saturated (some n) = if leb n (2 ^ 63 - 1) then pos n else pos (2 ^ 63 - 1)

pub saturated_negative : Option ℕ → ℤ
saturated_negative none = pos 0
saturated_negative (some zero) = pos 0
saturated_negative (some (suc n)) = if leb n (2 ^ 63 - 1) then negsuc n else negsuc (2 ^ 63 - 1)

pub integer : Str → ℤ
integer [] = pos 0
integer (c ∷ s) =
    if c == 45
    then saturated_negative (unsigned s)
    else if c == 43
    then saturated (unsigned s)
    else saturated (unsigned (c ∷ s))

-- ===== src/Server/Routing.antt =====
-- control-plane/main.go: how a handler finds the name in its path. What the mux makes of a path is an
-- argument: `path_value` is the empty text where the pattern has no such name.
pub mod Segments
use feature_flags_control_pl.Shared.{
  ℕ, Bool, true, false, ◌||◌, List, [], ◌∷◌, ◌++◌, Str, lit, str_eq, is_empty, trim_slashes, ◌==◌,
  if◌then◌else◌,
}

-- strings.Split(s, "/"), whose last member this is, behind the part `part` of it.
unfoldable pub last_part : Str → Str → Str
last_part part [] = part
last_part part (c ∷ s) = last_part (if c == 47 then [] else part ++ c ∷ []) s

unfoldable pub path_var : Str → Str → Str
path_var path_value path =
    if is_empty path_value then last_part [] (trim_slashes path) else path_value

unfoldable pub route_param : Str → Str → Str → Str
route_param path_value query path =
    let fallback = path_var path_value path in
    if is_empty path_value
    then if is_empty query
      then if str_eq path (lit "/ratelimit") || str_eq path (lit "/circuitbreaker")
        then []
        else fallback
      else query
    else path_value

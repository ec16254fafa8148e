-- ===== src/LogStore/Query/Filter/Examples.antt =====
-- Filters tried out.
use casa_os_app_management.Prelude.{
  String, ◌≡◌, refl, Bool, true, false, Option, none, some, [], ◌∷◌, ◌==◌, if◌then◌else◌, codes,
}
use casa_os_app_management.LogStore.Line.{Bytes, safe_name}
use casa_os_app_management.LogStore.Line.Level.{guess_level, strip_word}
use casa_os_app_management.LogStore.Query.Filter.{
  Filter, Matcher, Line, matches, compile, name_set, level_rank,
}
use casa_os_app_management.LogStore.Query.Filter.Laws.{asks_for, compile_lem}

-- patterns that are found nowhere but at the start, in the case they are written in
abbrev pub at_front : String → Option (Bytes → Bool)
at_front pattern =
    if pattern == "("
    then none
    else some (λ text. elim (strip_word (codes pattern) text) [ none ↦ false | some rest ↦ true ])

abbrev pub unquoted : String → String
unquoted s = s

abbrev pub errors_of_app : Filter
errors_of_app = record {
  apps = "my app" ∷ [];
  services = [];
  stream = "";
  level = "error";
  q = "disk";
  regex = true;
}

abbrev pub failure : Line
failure = record {
  at = 5;
  app = "my_app";
  service = "db";
  container = "0123456789ab";
  stream = b'o';
  text = codes "disk ERROR";
}

abbrev errors_matcher : Matcher
errors_matcher = record {
  apps = some ("my_app" ∷ []);
  services = none;
  stream = "";
  min_level = 2;
  re = at_front "disk";
}

compile_lem_example :
    matches errors_matcher failure ≡ asks_for at_front unquoted errors_of_app failure
unfolding compile name_set level_rank safe_name
compile_lem_example = compile_lem at_front unquoted errors_of_app errors_matcher failure refl

failure_found : matches errors_matcher failure ≡ true
unfolding matches guess_level
failure_found = refl

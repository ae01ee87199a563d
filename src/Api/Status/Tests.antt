-- ===== src/Api/Status/Tests.antt =====
-- The theorems about /status on a node with three sites.
use statiko.Base.{
  String, string_dec, Bool, Option, some, none, refl, List, [], ◌∷◌, ◌≡◌, true, ◌&&◌, ltb, nat_eq,
  count, false,
}
use statiko.State.Types.{SiteHealth, is_healthy}
use statiko.Certificates.Jobs.{prepend}
use statiko.Api.Status.{
  Shown, all_failing, show_all, show_listed, censor_domain_name, censor_parts, split_dots,
}
use statiko.Api.Status.Laws.{is_failing, is_serving, IsHidden, all_failing_lem, show_all-IsHidden}

abbrev health_of : String → Option String → String → SiteHealth
health_of domain app error = record {
  domain = domain;
  app = app;
  status_code = some 200;
  response_size = some 5;
  error = error;
  time = none;
}

-- One site fails, one has no app, and the third works.
abbrev three : List SiteHealth
three =
    health_of "xya.example" (some "app") "timeout"
    ∷ health_of "xyb.example" none ""
    ∷ health_of "xyc.example" (some "app") ""
    ∷ []

all_failing_lem_example :
    all_failing three ≡ (ltb 0 (count is_failing three) && nat_eq (count is_serving three) 0)
all_failing_lem_example = all_failing_lem three

abbrev two_of : String → Option String
two_of d = some "xy"

abbrev hidden : String → Option String → String → Bool → Shown
hidden domain app error healthy = record {
  health = record (health_of domain app error) { status_code = none; response_size = none };
  healthy = healthy;
}

abbrev shown : List Shown
shown =
    hidden "xy**.example" (some "<hidden>") "<hidden error>" false
    ∷ hidden "xy**.example" none "" true
    ∷ hidden "xy**.example" (some "<hidden>") "" true
    ∷ []

show_all-IsHidden_example :
    IsHidden two_of
      (health_of "xyc.example" (some "app") "")
      (hidden "xy**.example" (some "<hidden>") "" true)
unfolding show_all show_listed censor_domain_name censor_parts split_dots is_healthy prepend
    string_dec
show_all-IsHidden_example = show_all-IsHidden two_of three shown refl 2 _ _ refl refl

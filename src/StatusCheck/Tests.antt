-- ===== src/StatusCheck/Tests.antt =====
-- The theorem about the health of the sites on a node with two sites.
use statiko.Base.{◌==◌, ◌≡◌, refl, inr, false, count}
use statiko.State.Types.{SiteState, SiteHealth}
use statiko.State.Samples.{files, manager_with, two_sites}
use statiko.State.Manager.Sites.{get_sites}
use statiko.StatusCheck.{CheckLib, checked}
use statiko.StatusCheck.Laws.{IsFair, count-checked}

abbrev web : CheckLib
web = record {
  answer = λ d. inr (200, inr 5);
  show = λ n. "5";
  arrive = λ l. l;
  sort = λ l. l;
  running = λ d. false;
  now = 9;
}

web-IsFair : IsFair web
web-IsFair = record { arrives = λ p l. refl; sorts = λ p l. refl }

count-checked_example :
    count (λ (h : SiteHealth). h.domain == "a.example") (checked web files (manager_with two_sites))
    ≡ count (λ (s : SiteState). s.domain == "a.example") (get_sites files (manager_with two_sites))
count-checked_example = count-checked web web-IsFair files "a.example" (manager_with two_sites)

-- ===== src/Discovery/Tests.antt =====
-- A crawl on a URL library that splits a URL at its first slashes.
use seo_agent_rct.Prelude.{ℕ, ◌∷◌, [], List, none, some}
use seo_agent_rct.Text.{Text, UrlLib}
use seo_agent_rct.Discovery.{DiscoveryConfig, init}
use seo_agent_rct.Discovery.Sessions.{
  Call, add, discover, take_next, visit, give_up, session, IsCrawl, init-session-IsCrawl,
}

-- Every text is the path of a URL at one host.
abbrev one_host : UrlLib
one_host = record {
  urlparse = λ s. some (record { scheme = []; netloc = b'h' ∷ []; path = s; query = [] });
  urljoin = λ base s. some s;
  lower = λ s. s;
  strip = λ s. s;
}

abbrev small : DiscoveryConfig
small = record {
  max_depth = 2;
  max_pages = 3;
  max_redirects = 5;
  timeout = 30;
  retry = 2;
  allowed_domains = (b'h' ∷ []) ∷ [];
}

abbrev page : ℕ → Text
page n = b'/' ∷ n ∷ []

abbrev calls : List Call
calls =
    take_next 1
    ∷ discover page 2 (page 1 ∷ page 2 ∷ page 1 ∷ page 3 ∷ []) 0 (page 0)
    ∷ visit 3 (page 0) 200 0
    ∷ take_next 4
    ∷ give_up 5 (page 1) (page 9) none
    ∷ add (page 8) 6 (page 2) 1 none
    ∷ []

init-session-IsCrawl_example :
    IsCrawl small (session one_host calls (init one_host (page 7) 0 (page 0) small))
init-session-IsCrawl_example = init-session-IsCrawl one_host small (page 7) 0 (page 0) calls

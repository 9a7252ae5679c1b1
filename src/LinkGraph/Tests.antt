-- ===== src/LinkGraph/Tests.antt =====
-- A graph on a URL library that knows one host.
use seo_agent_rct.Prelude.{
  ℕ, ℕ_discrete, All, map, zero, suc, ◌≡◌, refl, List, ◌∷◌, [], none, some, ◌++◌, if◌then◌else◌,
  arith,
}
use seo_agent_rct.Dict
use seo_agent_rct.Text.{
  Text, Text_discrete, text_key, UrlLib, ParsedUrl, normalize_url, starts_with, ends_with,
  trim_path, drop_last,
}
use seo_agent_rct.LinkGraph.{
  LinkGraph, new_graph, add_page, add_link, find_or_add, record_link, adjust, is_internal_url,
}
use seo_agent_rct.LinkGraph.Redirects.{Chain, get_redirect_chains}
use seo_agent_rct.LinkGraph.Redirects.Ends.{IsRedirectChain, redirecting, get_redirect_chains-ends}
use seo_agent_rct.LinkGraph.Counts.{
  GraphCall, page, link, apply, apply_all, IsCounted, apply_all-IsCounted,
}
use seo_agent_rct.LinkGraph.Summary.{Summary, get_summary, AddsUp, get_summary-AddsUp}

-- `http://h`
abbrev host : Text
host = b'h' ∷ b't' ∷ b't' ∷ b'p' ∷ b':' ∷ b'/' ∷ b'/' ∷ b'h' ∷ []

abbrev skip : ℕ → Text → Text
skip zero s = s
skip (suc n) [] = []
skip (suc n) (c ∷ s) = skip n s

abbrev parts : Text → ParsedUrl
parts s =
    if starts_with s host
    then record {
      scheme = b'h' ∷ b't' ∷ b't' ∷ b'p' ∷ [];
      netloc = b'h' ∷ [];
      path = skip 8 s;
      query = [];
    }
    else record { scheme = []; netloc = b'x' ∷ []; path = s; query = [] }

abbrev one_site : UrlLib
one_site = record {
  urlparse = λ s. some (parts s);
  urljoin = λ base s. some s;
  lower = λ s. s;
  strip = λ s. s;
}

abbrev at : ℕ → Text
at n = host ++ (b'/' ∷ n ∷ [])

-- A redirects to B, B to C and C to B; D is a page.
abbrev calls : List GraphCall
calls =
    page (at b'A') 301 (some (at b'B')) none
    ∷ page (at b'B') 301 (some (at b'C')) none
    ∷ page (at b'C') 302 (some (at b'B')) none
    ∷ link [] (at b'D') (at b'A') [] []
    ∷ link [] (at b'D') (at b'D') [] []
    ∷ []

abbrev site : LinkGraph
site = apply_all one_site calls (new_graph one_site host)

apply_all-IsCounted_example : IsCounted site
unfolding normalize_url starts_with Text_discrete ℕ_discrete
apply_all-IsCounted_example =
    apply_all-IsCounted one_site host calls (tt, (tt, (tt, ((refl, refl), ((refl, refl), tt)))))

get_redirect_chains-ends_example :
    (cs : List Chain) × (get_redirect_chains 5 site ≡ some cs)
    × All (IsRedirectChain site.pages) cs
    × (map (λ c. c.start_url) cs ≡ redirecting site.pages)
unfolding apply_all apply new_graph add_page add_link find_or_add record_link adjust is_internal_url
    ends_with trim_path drop_last normalize_url starts_with Text_discrete ℕ_discrete Dict.get
    Dict.put
get_redirect_chains-ends_example =
    get_redirect_chains-ends 5 site (omega arith) (refl, (refl, (refl, (refl, tt))))

summary_of_site : (s : Summary) × (get_summary one_site 5 site ≡ some s) × AddsUp s
unfolding apply_all apply new_graph add_page add_link find_or_add record_link adjust is_internal_url
    ends_with trim_path drop_last normalize_url starts_with Text_discrete ℕ_discrete Dict.get
    Dict.put
summary_of_site =
    get_summary-AddsUp one_site 5 site (omega arith) (refl, (refl, (refl, (refl, tt))))

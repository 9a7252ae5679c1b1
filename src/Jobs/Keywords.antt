-- ===== src/Jobs/Keywords.antt =====
-- `KeywordService.get_keyword_ideas` of backend/services/keyword_service.py. The cache is an argument,
-- what it answers; the entry that is set in it, and the call of Gemini, whose answer is not used and
-- whose exceptions are dropped, are left out. A price is a number of cents. A limit is not negative,
-- as the request asks.
use Prim.Native.String.{◌++◌ as str_append}
use seo_agent_rct.Prelude.{
  ℕ, ◌+◌, ◌-◌, ◌*◌, ◌%◌, min, max, String, Option, none, some, List, [], ◌∷◌, take,
}
use seo_agent_rct.Json.{Json, num, str, obj, Items, field, end}

-- `str.lower`, `str.strip`, and `int(hashlib.md5(kw.encode("utf-8")).hexdigest()[:6], 16)`
pub record KeywordLib : Type 0 where
  pub lower : String → String
  pub strip : String → String
  pub md5_number : String → ℕ

pub record Pattern : Type 0 where
  pub prefix : String
  pub suffix : String
  pub intent : String
  pub cluster : String
  pub base_vol : ℕ
  pub base_kd : ℕ
  pub base_cpc : ℕ

abbrev pattern_of :
    (prefix suffix intent cluster : String) → (base_vol base_kd base_cpc : ℕ) → Pattern
pattern_of prefix suffix intent cluster base_vol base_kd base_cpc = record {
  prefix = prefix;
  suffix = suffix;
  intent = intent;
  cluster = cluster;
  base_vol = base_vol;
  base_kd = base_kd;
  base_cpc = base_cpc;
}

abbrev patterns : List Pattern
patterns =
    pattern_of "" "" "Informational" "Core Concept" 12500 35 220
    ∷ pattern_of "best " " 2026" "Commercial" "Best Tools" 8400 55 450
    ∷ pattern_of "how to set up " "" "Informational" "Guides & Tutorials" 6200 28 140
    ∷ pattern_of "free " " audit" "Transactional" "Free Tools" 5100 42 380
    ∷ pattern_of "" " vs traditional tools" "Commercial" "Comparisons" 3400 36 310
    ∷ pattern_of "" " pricing models" "Navigational" "Pricing" 2900 32 250
    ∷ pattern_of "" " software for agencies" "Transactional" "Agency Solutions" 2100 49 680
    ∷ pattern_of "top " " strategies" "Informational" "Strategy" 1800 24 95
    ∷ pattern_of "automated " " checklist" "Transactional" "Automation" 1500 30 290
    ∷ pattern_of "" " API integration" "Informational" "Developer Specs" 1200 22 110
    ∷ []

module _ (lib : KeywordLib) where
  -- One entry of the list.
  abbrev keyword_of : (clean : String) → Pattern → Json
  keyword_of clean p =
      let kw = lib.strip (str_append p.prefix (str_append clean p.suffix)) in
      let h_val = lib.md5_number kw % 100 in
      obj (
        field "kw" (str kw) (
          field "intent" (str p.intent) (
            field "volume" (num (max 100 (p.base_vol + h_val * 35))) (
              field "kd" (num (max 5 (min 95 (p.base_kd + h_val % 15 - 7)))) (
                field "cpc" (num (max 20 (p.base_cpc + h_val % 20 * 10)))
                  (field "cluster" (str p.cluster) end))))))

  abbrev keywords_of : (clean : String) → List Pattern → Items
  keywords_of clean [] = Items.nil
  keywords_of clean (p ∷ ps) = Items.cons (keyword_of clean p) (keywords_of clean ps)

  -- `_generate_dynamic_keyword_metrics`
  unfoldable pub generate_dynamic_keyword_metrics : (seed : String) → (limit : ℕ) → Items
  generate_dynamic_keyword_metrics seed limit =
      keywords_of (lib.strip (lib.lower seed)) (take limit patterns)

  -- `get_keyword_ideas`
  unfoldable pub get_keyword_ideas :
      (seed_keyword : String) → (limit : ℕ) → (cached : Option Items) → Items
  unfolding generate_dynamic_keyword_metrics
  get_keyword_ideas seed_keyword limit none =
      generate_dynamic_keyword_metrics (lib.strip (lib.lower seed_keyword)) limit
  get_keyword_ideas seed_keyword limit (some keywords) = keywords

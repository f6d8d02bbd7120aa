-- ===== src/Matching/Category/Stray.antt =====
-- STRAY_TITLE_RULES of src/matching/category_classifier.py.
use pc_builder.Shared.{
  not, Option, none, some, List, [], ◌∷◌, ◌==◌, nat_eq, option_eq, filter, Str, codes, str_eq,
  mem_str,
}
use pc_builder.Regex.{Regex, any_case}
use pc_builder.Matching.Category.Tables.{production_categories}

-- One row of STRAY_TITLE_RULES: the category it moves to, the categories it moves out of, the
-- pattern of the title, and the words that cancel it.
pub record StrayRule : Type 0 where
  pub target : Str
  pub sources : List Str
  pub pattern : Regex
  pub cancel : Option Regex

-- _ALL_PARTS, and a set of categories without some
abbrev all_parts : List Str
all_parts = filter (λ c. not (c == codes "Accessories")) production_categories

abbrev without : List Str → List Str
without cs = filter (λ c. not (mem_str c cs)) all_parts

-- _ENCLOSURE_WORDS
abbrev enclosure_words : Regex
enclosure_words = any_case "\\b(?:cabinet|case|chassis|mid[- ]?tower)\\b"

abbrev stray : Str → List Str → Regex → Option Regex → StrayRule
stray target sources pattern cancel = record {
  target = target;
  sources = sources;
  pattern = pattern;
  cancel = cancel;
}

abbrev pub stray_title_rules : List StrayRule
stray_title_rules =
    stray (codes "Accessories") all_parts
      (any_case
        "\\btester\\b|\\bcctv\\b|\\bmouse\\b|\\bracing wheel\\b|\\bpen ?drive\\b|\\bmemory card\\b")
      none
    ∷ stray (codes "Accessories") (codes "Cabinet" ∷ []) (any_case "\\blcd screen\\b")
        (some enclosure_words)
    ∷ stray (codes "Accessories") (codes "CPU Cooler" ∷ [])
        (any_case
          "\\bcabinet (?:cooler|fan)\\b|\\bcase fan\\b|\\bdistr(?:o|ibution) plate\\b|\\bfittings\\b")
        none
    ∷ stray (codes "Accessories") (codes "GPU" ∷ [])
        (any_case "\\bsync(?:hroni[sz]ation)? module\\b") none
    ∷ stray (codes "Accessories") (codes "Storage" ∷ [])
        (any_case "\\benclosure\\b|\\bcaddy\\b|\\bdocking station\\b") none
    ∷ stray (codes "Storage") (without (codes "Motherboard" ∷ codes "Storage" ∷ []))
        (any_case "\\b(?:ssd|nvme|hdd|hard (?:disk|drive))\\b")
        (some (any_case "\\b(?:slot|enclosure|motherboard)\\b"))
    ∷ stray (codes "RAM")
        (codes "GPU"
          ∷ codes "Storage"
          ∷ codes "Cabinet"
          ∷ codes "Power Supply"
          ∷ codes "Monitor"
          ∷ [])
        (any_case "\\bddr[345]\\b.*\\b(?:ram|memory)\\b|\\b(?:ram|memory)\\b.*\\bddr[345]\\b")
        (some (any_case "\\b(?:graphics|gpu|motherboard)\\b"))
    ∷ stray (codes "Motherboard")
        (codes "GPU" ∷ codes "RAM" ∷ codes "Storage" ∷ codes "Power Supply" ∷ codes "Monitor" ∷ [])
        (any_case "\\bmotherboard\\b") none
    ∷ stray (codes "CPU") (without (codes "CPU" ∷ codes "CPU Cooler" ∷ []))
        (any_case
          "\\b(?:ryzen|core i\\d|core ultra|xeon|pentium|celeron|athlon|threadripper|epyc)\\b.*\\bprocessor\\b")
        (some (any_case "\\b(?:motherboard|mainboard|socket|supports?|for)\\b"))
    ∷ stray (codes "Monitor")
        (codes "GPU" ∷ codes "Storage" ∷ codes "Cabinet" ∷ codes "Power Supply" ∷ [])
        (any_case "\\bmonitor\\b") (some (any_case "\\b(?:arm|mount|stand|light ?bar|lamp)\\b"))
    ∷ stray (codes "CPU Cooler")
        (codes "Storage" ∷ codes "Cabinet" ∷ codes "Power Supply" ∷ codes "Monitor" ∷ [])
        (any_case
          "\\b(?:cpu (?:air |liquid )?cooler|liquid cpu cooler|(?:aio|liquid|air) cooler)\\b")
        (some enclosure_words)
    ∷ []

-- ===== src/Matching/MatchingTests.antt =====
-- Titles and fields of listings, as retailers write them.
use pc_builder.Shared.{
  ℕ, ◌<◌, ◌≡◌, refl, ◌↔◌, true, false, Option, none, some, List, [], ◌∷◌, nat_eq, option_eq, length,
  any, all, Str, codes, str_eq, mem_str,
}
use pc_builder.Regex.{read_pattern, search, sub, sub_text, group_of}
use pc_builder.Matching.Condition.{detect_condition}
use pc_builder.Matching.Category.{get_p_category}
use pc_builder.Matching.Category.Tables.{production_categories}
use pc_builder.Matching.Keys.{
  has_signal, is_signal, normalize_efficiency_trim, sorted_fields, KeyFields,
  make_canonical_key_string, disambiguate_failed_key, build_psu_key_dict,
}
use pc_builder.Matching.Board.{
  reconcile, resolve_group_form_factor, group_form, decide_form, majority,
  form_factor_from_designation, form_factor_from_title, resolve_motherboard_form_factor, BoardRow,
  resolve_board_designation, reconcile, listings_updated, listings_cleared,
}
use pc_builder.Matching.Board.Settled.{reconcile-settles}
use pc_builder.Matching.LegacyParts.{
  is_cooler_legacy, is_current_token, is_retired_token, tokens_of, text_of,
}
use pc_builder.Matching.CoolerAge.{is_cooler_legacy_iff}
use pc_builder.Matching.Clearance.{format_radiator_sizes, parse_radiator_sizes, valid_sizes}
use pc_builder.Matching.Clearance.RoundTrip.{parse-format_radiator_sizes}
use pc_builder.Matching.Rekey.{Listing, Part, Models, moves, rekey, rekey-settles}
use pc_builder.Matching.RekeyParts.{CpuExtraction, cpu_fields, rekey_cpus}
use pc_builder.Matching.Cpu.{cpu_key_fields}
use pc_builder.Matching.Sizes.{size_label}
use pc_builder.Matching.Unresolved.{failed_keys-differ}
use pc_builder.Matching.Vocabulary.{get_p_category-known}
use pc_builder.Matching.TitleKeys.{clean_cpu_title, cpu_model_number}

is_repacked :
    detect_condition (some (codes "Kingston 8GB DDR4 (Repacked)")) none ≡ some (codes "repacked")
unfolding detect_condition search read_pattern
is_repacked = refl

b850i :
    resolve_board_designation (some (codes "B850")) (some (codes "MSI MPG B850I Edge"))
    ≡ codes "B850I"
unfolding resolve_board_designation search read_pattern
b850i = refl

cpu_title :
    cpu_model_number (clean_cpu_title (codes "intel core i5 - 12400f")) ≡ codes "core i5-12400f"
unfolding cpu_model_number clean_cpu_title search sub group_of read_pattern
cpu_title = refl

abbrev unnamed : Str → KeyFields
unnamed efficiency = build_psu_key_dict none none none (some efficiency)

abbrev bronze : KeyFields
bronze = unnamed (codes "80+ Bronze")

abbrev bronze_again : KeyFields
bronze_again = unnamed (codes "Bronze")

abbrev product_id : ℕ
product_id = 12

failed_keys-differ_example : product_id ≡ product_id
unfolding build_psu_key_dict has_signal is_signal normalize_efficiency_trim
    make_canonical_key_string disambiguate_failed_key sorted_fields
failed_keys-differ_example =
    failed_keys-differ (codes "psu") bronze bronze_again product_id product_id refl refl
      (refl, (refl, (refl, (refl, (refl, tt))))) (refl, (refl, (refl, (refl, (refl, tt))))) refl

abbrev boards : List BoardRow
boards =
    record {
      canonical_id = some (codes "b1");
      chipset = some (codes "B650");
      raw_title = some (codes "B650M Plus");
      form_factor = some (codes "ATX");
    }
    ∷ record {
      canonical_id = some (codes "b1");
      chipset = some (codes "B650");
      raw_title = some (codes "TUF B650");
      form_factor = none;
    }
    ∷ []

reconcile-settles_example :
    (listings_updated [] (reconcile [] boards) ≡ 0)
    × (listings_cleared [] (reconcile [] boards) ≡ 0)
reconcile-settles_example = reconcile-settles [] boards

two_updated : listings_updated [] boards ≡ 2
unfolding listings_updated resolve_board_designation resolve_group_form_factor decide_form majority
    form_factor_from_designation form_factor_from_title resolve_motherboard_form_factor group_form
    search read_pattern
two_updated = refl

abbrev old_mounts : Option Str
old_mounts = some (codes "LGA775, AM3")

is_cooler_legacy_iff_example : (is_cooler_legacy old_mounts ≡ true) ↔ (
    (0 < length (tokens_of (text_of old_mounts)))
    × (any is_current_token (tokens_of (text_of old_mounts)) ≡ false)
    × (all is_retired_token (tokens_of (text_of old_mounts)) ≡ true))
is_cooler_legacy_iff_example = is_cooler_legacy_iff old_mounts

cooler_is_old : is_cooler_legacy old_mounts ≡ true
unfolding is_cooler_legacy sub_text search read_pattern
cooler_is_old = refl

parse-format_radiator_sizes_example :
    parse_radiator_sizes (format_radiator_sizes (360 ∷ 240 ∷ 100 ∷ 240 ∷ []))
    ≡ valid_sizes (360 ∷ 240 ∷ 100 ∷ 240 ∷ [])
parse-format_radiator_sizes_example = parse-format_radiator_sizes (360 ∷ 240 ∷ 100 ∷ 240 ∷ [])

two_sizes : valid_sizes (360 ∷ 240 ∷ 100 ∷ 240 ∷ []) ≡ 240 ∷ 360 ∷ []
unfolding valid_sizes
two_sizes = refl

get_p_category-known_example :
    mem_str
      (get_p_category (some (codes "Processor")) (some (codes "Radeon RX 7600")))
      production_categories
    ≡ true
get_p_category-known_example =
    get_p_category-known (some (codes "Processor")) (some (codes "Radeon RX 7600"))

gpu_under_processor :
    get_p_category (some (codes "Processor")) (some (codes "Radeon RX 7600")) ≡ codes "GPU"
unfolding get_p_category search read_pattern
gpu_under_processor = refl

monitor_size :
    size_label (some (codes "Monitor")) (some (codes "LG 23.8 inch IPS")) ≡ some (codes "23.8\"")
unfolding size_label search group_of read_pattern
monitor_size = refl

abbrev ryzen : Listing CpuExtraction
ryzen = record {
  id = 1;
  name = codes "AMD Ryzen 5 5600X";
  canonical_id = some (codes "cpu:old");
  extraction = record {
    brand = some (codes "AMD");
    series = some (codes "Ryzen 5");
    model_number = some (codes "5600X");
  };
  extraction_id = some (codes "cpu:old");
  status = codes "ok";
}

abbrev old_part : Part
old_part = record {
  canonical_id = codes "cpu:old";
  category = codes "cpu";
  brand = none;
  key_fields = [];
  from_title = [];
  status = codes "OK";
}

abbrev models : Models CpuExtraction ℕ
models = record {
  listings = ryzen ∷ [];
  others = [];
  parts = old_part ∷ [];
  specs = (codes "cpu:old", 65) ∷ [];
}

one_moved :
    (rekey_cpus models).0
    ≡ record { listings_moved = 1; old_models_split = 0; new_models = 1; models_deleted = 1 }
unfolding rekey_cpus cpu_key_fields search sub sub_text group_of read_pattern
one_moved = refl

rekey-settles_example :
    moves
      (codes "cpu")
      (codes "brand")
      cpu_fields
      (λ (s : ℕ) fields. s)
      (rekey (codes "cpu") (codes "brand") cpu_fields (λ (s : ℕ) fields. s) models).1.listings
    ≡ []
rekey-settles_example =
    rekey-settles (codes "cpu") (codes "brand") cpu_fields (λ (s : ℕ) fields. s) models

-- ===== src/SpecValues/ValueTests.antt =====
-- Runs of the normalizers.
use pc_builder.Shared.{◌≡◌, refl, none, some, [], ◌∷◌, map, nat_eq, option_eq, codes, str_eq}
use pc_builder.SpecValues.Normalizers.{
  normalize_spec_value, normalize_brand, normalize_chipset, normalize_gpu_chipset,
  normalize_resolution,
}
use pc_builder.SpecValues.Canonical.{normalize_spec_value-again}

brands : normalize_brand (codes " g.skill ") ≡ some (codes "G.Skill")
unfolding normalize_brand
brands = refl

chipsets :
    map normalize_chipset (codes "b850m" ∷ codes "B650E" ∷ codes "SP5" ∷ [])
    ≡ some (codes "B850") ∷ some (codes "B650E") ∷ none ∷ []
unfolding normalize_chipset
chipsets = refl

cards :
    map normalize_gpu_chipset (codes "RX 9060XT" ∷ codes "gtx 710" ∷ codes "RTX  4070ti super" ∷ [])
    ≡ some (codes "RX 9060 XT") ∷ some (codes "GT 710") ∷ some (codes "RTX 4070 ti super") ∷ []
unfolding normalize_gpu_chipset
cards = refl

resolutions :
    map normalize_resolution (codes "2560 x 1440" ∷ codes "3440×1440" ∷ codes "full hd" ∷ [])
    ≡ some (codes "QHD") ∷ some (codes "UWQHD") ∷ some (codes "FHD") ∷ []
unfolding normalize_resolution
resolutions = refl

normalize_spec_value-again_example :
    normalize_spec_value (codes "interface") (codes "NVMe Gen4") none ≡ some (codes "NVMe Gen4")
unfolding normalize_spec_value
normalize_spec_value-again_example =
    normalize_spec_value-again (codes "interface") (codes "NVMe PCIe 4.0") (codes "NVMe Gen4") none
      refl refl

-- ===== src/Matching/Category/Tables.antt =====
-- The tables of src/matching/category_classifier.py.
use pc_builder.Shared.{List, [], ◌∷◌, nat_eq, option_eq, Str, codes, str_eq}

-- PRODUCTION_CATEGORIES
abbrev pub production_categories : List Str
production_categories =
    codes "CPU"
    ∷ codes "Motherboard"
    ∷ codes "GPU"
    ∷ codes "RAM"
    ∷ codes "Storage"
    ∷ codes "Cabinet"
    ∷ codes "Power Supply"
    ∷ codes "CPU Cooler"
    ∷ codes "Monitor"
    ∷ codes "Accessories"
    ∷ []

-- CATEGORY_MAPPING, as the names that each category has
abbrev pub category_mapping : List (Str × List Str)
category_mapping =
    (
      codes "CPU",
      codes "CPU"
          ∷ codes "Processor"
          ∷ codes "Desktop Processors"
          ∷ codes "Intel Processor"
          ∷ codes "AMD Processor"
          ∷ codes "Threadripper Processor"
          ∷ [],
    )
    ∷ (
      codes "GPU",
      codes "GPU"
          ∷ codes "Graphics Card"
          ∷ codes "Graphics Card (NVIDIA)"
          ∷ codes "Graphics Card (AMD)"
          ∷ codes "AMD Graphics Card"
          ∷ codes "NVIDIA RTX 50 Series"
          ∷ codes "NVIDIA RTX 30 Series"
          ∷ [],
    )
    ∷ (
      codes "Motherboard",
      codes "Motherboard"
          ∷ codes "Motherboards"
          ∷ codes "Intel Motherboard"
          ∷ codes "AMD Motherboard"
          ∷ [],
    )
    ∷ (
      codes "RAM",
      codes "RAM"
          ∷ codes "Desktop RAM"
          ∷ codes "Laptop RAM"
          ∷ codes "Desktop RAM (DDR4)"
          ∷ codes "Desktop RAM (DDR5)"
          ∷ codes "Laptop RAM (DDR4)"
          ∷ codes "Laptop RAM (DDR5)"
          ∷ [],
    )
    ∷ (
      codes "Storage",
      codes "Storage"
          ∷ codes "SSD"
          ∷ codes "HDD"
          ∷ codes "Internal HDD"
          ∷ codes "External HDD"
          ∷ codes "Internal SSD"
          ∷ codes "External SSD"
          ∷ codes "NVMe SSD"
          ∷ codes "M.2 NVMe SSD"
          ∷ codes "M.2 SSD"
          ∷ codes "Gen3 NVMe SSD"
          ∷ codes "Gen4 NVMe SSD"
          ∷ codes "Gen5 NVMe SSD"
          ∷ codes "Laptop SSD"
          ∷ codes "External Portable HDD"
          ∷ codes "External Portable SSD"
          ∷ codes "External Hard Disk"
          ∷ codes "Hard Drive"
          ∷ codes "SATA SSD"
          ∷ codes "2.5\" SATA SSD"
          ∷ [],
    )
    ∷ (codes "Cabinet", codes "Cabinet" ∷ codes "Cabinet Case" ∷ [])
    ∷ (codes "Power Supply", codes "PSU" ∷ codes "Power Supply" ∷ codes "Power Supply / SMPS" ∷ [])
    ∷ (
      codes "CPU Cooler",
      codes "CPU Cooler"
          ∷ codes "CPU Air Cooler"
          ∷ codes "CPU Liquid Cooler"
          ∷ codes "Cooling System"
          ∷ codes "Cooling Systems"
          ∷ [],
    )
    ∷ (codes "Monitor", codes "Monitor" ∷ [])
    ∷ (
      codes "Accessories",
      codes "Gaming Headset" ∷ codes "Wireless Router" ∷ codes "Accessories" ∷ [],
    )
    ∷ []

abbrev pub gpu_title_indicators : List Str
gpu_title_indicators =
    codes "graphics card"
    ∷ codes "geforce"
    ∷ codes " rtx "
    ∷ codes " gtx "
    ∷ codes "radeon rx"
    ∷ codes "radeon pro"
    ∷ codes "radeon vii"
    ∷ []

abbrev pub cpu_brand_indicators : List Str
cpu_brand_indicators =
    codes "ryzen"
    ∷ codes "core i"
    ∷ codes "core ultra"
    ∷ codes "threadripper"
    ∷ codes "pentium"
    ∷ codes "celeron"
    ∷ codes "athlon"
    ∷ codes "epyc"
    ∷ codes "xeon"
    ∷ []

abbrev pub audio_indicators : List Str
audio_indicators =
    codes "soundbar"
    ∷ codes "speaker"
    ∷ codes "headphone"
    ∷ codes "headset"
    ∷ codes "earbud"
    ∷ codes "earphone"
    ∷ codes "microphone"
    ∷ codes "subwoofer"
    ∷ []

abbrev pub thermal_material_indicators : List Str
thermal_material_indicators =
    codes "thermal paste"
    ∷ codes "thermal grease"
    ∷ codes "thermal compound"
    ∷ codes "thermal pad"
    ∷ codes "thermal putty"
    ∷ codes "nt-h1"
    ∷ codes "nt-h2"
    ∷ []

abbrev pub removable_media_indicators : List Str
removable_media_indicators =
    codes " memory card "
    ∷ codes " sd card "
    ∷ codes " microsd "
    ∷ codes " micro sd "
    ∷ codes " sdhc "
    ∷ codes " sdxc "
    ∷ codes " pen drive "
    ∷ codes " pendrive "
    ∷ codes " flash drive "
    ∷ codes " compactflash "
    ∷ []

abbrev pub title_only_category_markers : List (Str × List Str)
title_only_category_markers =
    (codes "Power Supply", codes "power supply" ∷ codes "smps" ∷ codes "psu " ∷ codes " psu" ∷ [])
    ∷ (
      codes "CPU Cooler",
      codes "cpu cooler"
          ∷ codes "air cooler"
          ∷ codes "liquid cooler"
          ∷ codes "aio cooler"
          ∷ codes "cpu air cooler"
          ∷ codes "cpu liquid cooler"
          ∷ [],
    )
    ∷ (codes "Motherboard", codes "motherboard" ∷ codes "mainboard" ∷ [])
    ∷ (
      codes "Cabinet",
      codes "cabinet"
          ∷ codes "pc case"
          ∷ codes "computer case"
          ∷ codes "mid tower"
          ∷ codes "full tower"
          ∷ [],
    )
    ∷ (codes "Monitor", codes "monitor" ∷ codes "gaming monitor" ∷ [])
    ∷ (
      codes "Storage",
      codes "ssd" ∷ codes "nvme" ∷ codes "hard disk" ∷ codes "hard drive" ∷ codes " hdd" ∷ [],
    )
    ∷ (codes "RAM", codes "ram " ∷ codes " ram" ∷ codes "dimm" ∷ codes "memory module" ∷ [])
    ∷ []

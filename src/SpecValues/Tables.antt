-- ===== src/SpecValues/Tables.antt =====
-- The tables of src/matching/spec_value_normalizer.py.
use pc_builder.Shared.{List, [], ◌∷◌, nat_eq, option_eq, Str, codes, str_eq}

-- BRAND_CANONICAL
abbrev pub brand_canonical : List (Str × Str)
brand_canonical =
    (codes "asus", codes "ASUS")
    ∷ (codes "asrock", codes "ASRock")
    ∷ (codes "gigabyte", codes "Gigabyte")
    ∷ (codes "msi", codes "MSI")
    ∷ (codes "zotac", codes "ZOTAC")
    ∷ (codes "colorful", codes "Colorful")
    ∷ (codes "sapphire", codes "Sapphire")
    ∷ (codes "powercolor", codes "PowerColor")
    ∷ (codes "inno3d", codes "Inno3D")
    ∷ (codes "galax", codes "GALAX")
    ∷ (codes "pny", codes "PNY")
    ∷ (codes "nvidia", codes "NVIDIA")
    ∷ (codes "amd", codes "AMD")
    ∷ (codes "intel", codes "Intel")
    ∷ (codes "nextron", codes "NEXTRON")
    ∷ (codes "foxin", codes "Foxin")
    ∷ (codes "corsair", codes "Corsair")
    ∷ (codes "gskill", codes "G.Skill")
    ∷ (codes "teamgroup", codes "TeamGroup")
    ∷ (codes "kingston", codes "Kingston")
    ∷ (codes "crucial", codes "Crucial")
    ∷ (codes "adata", codes "ADATA")
    ∷ (codes "patriot", codes "Patriot")
    ∷ (codes "patriotmemory", codes "Patriot")
    ∷ (codes "samsung", codes "Samsung")
    ∷ (codes "micron", codes "Micron")
    ∷ (codes "lexar", codes "Lexar")
    ∷ (codes "transcend", codes "Transcend")
    ∷ (codes "hynix", codes "SK Hynix")
    ∷ (codes "skhynix", codes "SK Hynix")
    ∷ (codes "siliconpower", codes "Silicon Power")
    ∷ (codes "vcolor", codes "V-COLOR")
    ∷ (codes "zion", codes "ZION")
    ∷ (codes "evm", codes "EVM")
    ∷ (codes "acer", codes "Acer")
    ∷ (codes "westerndigital", codes "Western Digital")
    ∷ (codes "wd", codes "Western Digital")
    ∷ (codes "seagate", codes "Seagate")
    ∷ (codes "toshiba", codes "Toshiba")
    ∷ (codes "kioxia", codes "Kioxia")
    ∷ (codes "sandisk", codes "SanDisk")
    ∷ (codes "addlink", codes "Addlink")
    ∷ (codes "sabrent", codes "Sabrent")
    ∷ (codes "synology", codes "Synology")
    ∷ (codes "hikvision", codes "Hikvision")
    ∷ (codes "biwin", codes "Biwin")
    ∷ (codes "verbatim", codes "Verbatim")
    ∷ (codes "orico", codes "ORICO")
    ∷ (codes "geonix", codes "GEONIX")
    ∷ (codes "coolermaster", codes "Cooler Master")
    ∷ (codes "thermaltake", codes "Thermaltake")
    ∷ (codes "thermaltek", codes "Thermaltake")
    ∷ (codes "deepcool", codes "DeepCool")
    ∷ (codes "antec", codes "Antec")
    ∷ (codes "antesports", codes "Ant Esports")
    ∷ (codes "ant", codes "Ant Esports")
    ∷ (codes "superflower", codes "Super Flower")
    ∷ (codes "fsp", codes "FSP")
    ∷ (codes "evga", codes "EVGA")
    ∷ (codes "nzxt", codes "NZXT")
    ∷ (codes "silverstone", codes "SilverStone")
    ∷ (codes "gamdias", codes "GAMDIAS")
    ∷ (codes "circle", codes "Circle")
    ∷ (codes "zebronics", codes "Zebronics")
    ∷ (codes "prolabdesign", codes "ProLab Design")
    ∷ (codes "prolab", codes "ProLab Design")
    ∷ (codes "fractaldesign", codes "Fractal Design")
    ∷ (codes "syrotech", codes "Syrotech")
    ∷ (codes "gamerstorm", codes "Gamer Storm")
    ∷ (codes "noctua", codes "Noctua")
    ∷ (codes "arctic", codes "ARCTIC")
    ∷ (codes "lianli", codes "Lian Li")
    ∷ (codes "alseye", codes "ALSEYE")
    ∷ (codes "montech", codes "Montech")
    ∷ (codes "cougar", codes "COUGAR")
    ∷ (codes "xigmatek", codes "Xigmatek")
    ∷ (codes "aerocool", codes "AeroCool")
    ∷ (codes "hyte", codes "HYTE")
    ∷ (codes "phanteks", codes "Phanteks")
    ∷ (codes "inwin", codes "InWin")
    ∷ (codes "razer", codes "Razer")
    ∷ (codes "cocosports", codes "COCO Sports")
    ∷ (codes "coconut", codes "Coconut")
    ∷ (codes "dawg", codes "DAWG")
    ∷ (codes "taggamerz", codes "TAG Gamerz")
    ∷ (codes "consistent", codes "Consistent")
    ∷ (codes "iball", codes "iBall")
    ∷ (codes "lapcare", codes "Lapcare")
    ∷ (codes "icemaster", codes "IceMaster")
    ∷ (codes "lg", codes "LG")
    ∷ (codes "dell", codes "Dell")
    ∷ (codes "benq", codes "BenQ")
    ∷ (codes "viewsonic", codes "ViewSonic")
    ∷ (codes "aoc", codes "AOC")
    ∷ (codes "philips", codes "Philips")
    ∷ (codes "lenovo", codes "Lenovo")
    ∷ (codes "hp", codes "HP")
    ∷ []

-- _GPU_FIXES
abbrev pub gpu_fixes : List (Str × Str)
gpu_fixes =
    (codes "GTX710", codes "GT 710")
    ∷ (codes "GTX730", codes "GT 730")
    ∷ (codes "QUADRORTXA1000", codes "RTX A1000")
    ∷ (codes "QUADRORTX2000ADAGENERATION", codes "RTX 2000 Ada Generation")
    ∷ (codes "QUADROT1000", codes "T1000")
    ∷ (codes "QUADROT400", codes "T400")
    ∷ (codes "R9700", codes "Radeon R9700")
    ∷ (codes "RADEONR9700", codes "Radeon R9700")
    ∷ (codes "RX9700", codes "Radeon R9700")
    ∷ []

-- _RESOLUTION_CANONICAL
abbrev pub resolution_canonical : List (Str × Str)
resolution_canonical =
    (codes "1366X768", codes "HD")
    ∷ (codes "1280X720", codes "HD")
    ∷ (codes "HD", codes "HD")
    ∷ (codes "HD+", codes "HD+")
    ∷ (codes "HDPLUS", codes "HD+")
    ∷ (codes "1600X900", codes "HD+")
    ∷ (codes "1440X900", codes "WXGA+")
    ∷ (codes "1920X1080", codes "FHD")
    ∷ (codes "FHD", codes "FHD")
    ∷ (codes "FULLHD", codes "FHD")
    ∷ (codes "FULL-HD", codes "FHD")
    ∷ (codes "1080P", codes "FHD")
    ∷ (codes "1920X1200", codes "WUXGA")
    ∷ (codes "WUXGA", codes "WUXGA")
    ∷ (codes "2560X1080", codes "WFHD")
    ∷ (codes "WFHD", codes "WFHD")
    ∷ (codes "2560X1440", codes "QHD")
    ∷ (codes "QHD", codes "QHD")
    ∷ (codes "2K", codes "QHD")
    ∷ (codes "2KQHD", codes "QHD")
    ∷ (codes "1440P", codes "QHD")
    ∷ (codes "WQHD", codes "QHD")
    ∷ (codes "1280X1024", codes "SXGA")
    ∷ (codes "SXGA", codes "SXGA")
    ∷ (codes "1680X1050", codes "WSXGA+")
    ∷ (codes "WSXGA", codes "WSXGA+")
    ∷ (codes "3440X1440", codes "UWQHD")
    ∷ (codes "UWQHD", codes "UWQHD")
    ∷ (codes "WQHD+", codes "UWQHD")
    ∷ (codes "45WQHD", codes "UWQHD")
    ∷ (codes "3840X1080", codes "DFHD")
    ∷ (codes "5120X1440", codes "DQHD")
    ∷ (codes "DQHD", codes "DQHD")
    ∷ (codes "DUALQHD", codes "DQHD")
    ∷ (codes "5K2K", codes "5K2K")
    ∷ (codes "3840X2160", codes "4K UHD")
    ∷ (codes "4K", codes "4K UHD")
    ∷ (codes "UHD", codes "4K UHD")
    ∷ (codes "4KUHD", codes "4K UHD")
    ∷ (codes "4K+", codes "4K UHD")
    ∷ (codes "DUALUHD", codes "Dual UHD")
    ∷ (codes "5120X2880", codes "5K")
    ∷ (codes "5K", codes "5K")
    ∷ (codes "6K", codes "6K")
    ∷ (codes "7680X4320", codes "8K")
    ∷ (codes "8K", codes "8K")
    ∷ (codes "1024X768", codes "XGA")
    ∷ []

-- _PANEL_CANONICAL
abbrev pub panel_canonical : List (Str × Str)
panel_canonical =
    (codes "IPS", codes "IPS")
    ∷ (codes "NANOIPS", codes "Nano IPS")
    ∷ (codes "IPSBLACK", codes "IPS Black")
    ∷ (codes "VA", codes "VA")
    ∷ (codes "TN", codes "TN")
    ∷ (codes "OLED", codes "OLED")
    ∷ (codes "QDOLED", codes "QD-OLED")
    ∷ (codes "QD-OLED", codes "QD-OLED")
    ∷ (codes "MINILED", codes "Mini LED")
    ∷ (codes "MICROLED", codes "Micro LED")
    ∷ []

-- _EFFICIENCY_CANONICAL
abbrev pub efficiency_canonical : List (Str × Str)
efficiency_canonical =
    (codes "80+TITANIUM", codes "80+ Titanium")
    ∷ (codes "80+PLATINUM", codes "80+ Platinum")
    ∷ (codes "80+GOLD", codes "80+ Gold")
    ∷ (codes "80+SILVER", codes "80+ Silver")
    ∷ (codes "80+BRONZE", codes "80+ Bronze")
    ∷ (codes "80+WHITE", codes "80+ White")
    ∷ (codes "80PLUSTITANIUM", codes "80+ Titanium")
    ∷ (codes "80PLUSPLATINUM", codes "80+ Platinum")
    ∷ (codes "80PLUSGOLD", codes "80+ Gold")
    ∷ (codes "80PLUSSILVER", codes "80+ Silver")
    ∷ (codes "80PLUSBRONZE", codes "80+ Bronze")
    ∷ (codes "80PLUSWHITE", codes "80+ White")
    ∷ []

-- _INTERFACE_CANONICAL
abbrev pub interface_canonical : List (Str × Str)
interface_canonical =
    (codes "SATA", codes "SATA")
    ∷ (codes "SATAIII", codes "SATA")
    ∷ (codes "SATA3", codes "SATA")
    ∷ (codes "SATA6GBS", codes "SATA")
    ∷ (codes "NVME", codes "NVMe")
    ∷ (codes "NVMEGEN3", codes "NVMe Gen3")
    ∷ (codes "NVMEGEN30", codes "NVMe Gen3")
    ∷ (codes "PCIEGEN3", codes "NVMe Gen3")
    ∷ (codes "NVMEPCIE30", codes "NVMe Gen3")
    ∷ (codes "NVMEGEN4", codes "NVMe Gen4")
    ∷ (codes "NVMEGEN40", codes "NVMe Gen4")
    ∷ (codes "PCIEGEN4", codes "NVMe Gen4")
    ∷ (codes "NVMEPCIE40", codes "NVMe Gen4")
    ∷ (codes "NVMEGEN5", codes "NVMe Gen5")
    ∷ (codes "NVMEGEN50", codes "NVMe Gen5")
    ∷ (codes "PCIEGEN5", codes "NVMe Gen5")
    ∷ (codes "NVMEPCIE50", codes "NVMe Gen5")
    ∷ (codes "HDD", codes "HDD")
    ∷ (codes "SAS", codes "SAS")
    ∷ (codes "USB", codes "USB")
    ∷ []

-- _MODULARITY_CANONICAL
abbrev pub modularity_canonical : List (Str × Str)
modularity_canonical =
    (codes "FULL", codes "Full")
    ∷ (codes "FULLY", codes "Full")
    ∷ (codes "FULLMODULAR", codes "Full")
    ∷ (codes "FULLYMODULAR", codes "Full")
    ∷ (codes "MODULAR", codes "Full")
    ∷ (codes "SEMI", codes "Semi")
    ∷ (codes "SEMIMODULAR", codes "Semi")
    ∷ (codes "NON", codes "Non")
    ∷ (codes "NONMODULAR", codes "Non")
    ∷ (codes "NONE", codes "Non")
    ∷ (codes "FIXED", codes "Non")
    ∷ []

-- _NOT_CHIPSETS
abbrev pub not_chipsets : List Str
not_chipsets = codes "SP5" ∷ codes "SP6" ∷ codes "SP3" ∷ codes "TR4" ∷ []

-- _VALID_GPU_MEMORY
abbrev pub valid_gpu_memory : List Str
valid_gpu_memory =
    codes "GDDR7"
    ∷ codes "GDDR6X"
    ∷ codes "GDDR6"
    ∷ codes "GDDR5X"
    ∷ codes "GDDR5"
    ∷ codes "GDDR3"
    ∷ codes "DDR3"
    ∷ codes "HBM2E"
    ∷ codes "HBM3"
    ∷ []

-- PLACEHOLDERS
abbrev pub placeholders : List Str
placeholders =
    []
    ∷ codes "unknown"
    ∷ codes "na"
    ∷ codes "n/a"
    ∷ codes "none"
    ∷ codes "-"
    ∷ codes "--"
    ∷ codes "generic"
    ∷ codes "other"
    ∷ codes "misc"
    ∷ codes "notspecified"
    ∷ codes "nospecified"
    ∷ codes "tbd"
    ∷ codes "ssd"
    ∷ []

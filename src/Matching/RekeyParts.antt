-- ===== src/Matching/RekeyParts.antt =====
-- `rekey_cpus` of src/matching/rekey.py and src/matching/gpu_rekey.py.
use pc_builder.Shared.{
  ℕ, ◌-◌, Option, none, some, [], if◌then◌else◌, ◌==◌, nat_eq, option_eq, get_or, length, take, Str,
  codes, str_eq, read_nat,
}
use pc_builder.Matching.Keys.{KeyFields}
use pc_builder.Matching.Cpu.{cpu_key_fields}
use pc_builder.Matching.Gpu.{gpu_key_fields, normalize_chipset}
use pc_builder.Matching.Rekey.{Models, Stats, field_at, rekey}

-- the columns of the extractions that are read
pub record CpuExtraction : Type 0 where
  pub brand : Option Str
  pub series : Option Str
  pub model_number : Option Str

pub record GpuExtraction : Type 0 where
  pub brand : Option Str
  pub chipset : Option Str
  pub variant : Option Str

abbrev pub cpu_fields : CpuExtraction → Str → KeyFields
cpu_fields e name = cpu_key_fields e.brand e.series e.model_number (some name)

unfoldable pub rekey_cpus : {S : Type 0} → Models CpuExtraction S → Stats × Models CpuExtraction S
unfolding rekey
rekey_cpus = rekey (codes "cpu") (codes "brand") cpu_fields (λ s fields. s)

-- the columns of gpu_specs that are changed
pub record GpuSpec : Type 0 where
  pub memory_size_gb : Option ℕ
  pub chipset : Option Str

abbrev set_memory : Option Str → GpuSpec → GpuSpec
set_memory none spec = spec
set_memory (some memory) spec = record spec {
  memory_size_gb = some (read_nat (take (length memory - 2) memory));
}

-- `_memory_from_key`; every key of a graphics card has a chipset
unfoldable pub memory_from_key : GpuSpec → KeyFields → GpuSpec
unfolding normalize_chipset
memory_from_key spec fields =
    let after = set_memory (field_at (codes "memory") fields) spec in
    let chipset = get_or (field_at (codes "chipset") fields) [] in
    if normalize_chipset after.chipset == chipset
    then after
    else record after { chipset = some chipset }

abbrev pub gpu_fields_of : GpuExtraction → Str → KeyFields
gpu_fields_of e name = gpu_key_fields e.brand e.chipset e.variant (some name)

unfoldable pub rekey_gpus : Models GpuExtraction GpuSpec → Stats × Models GpuExtraction GpuSpec
unfolding rekey memory_from_key
rekey_gpus = rekey (codes "gpu") (codes "aib_brand") gpu_fields_of memory_from_key

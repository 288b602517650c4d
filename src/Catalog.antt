-- ===== src/Catalog.antt =====
-- internal/catalog/catalog.go. `List` gives the entries in any order, and its callers sort them.
use iold.Base.{ℕ, List, [], ◌∷◌, Text, codes, text_eq, if◌then◌else◌}
use iold.Fault.{Result, ok, err, unknown_model}

pub record Entry : Type 0 where
  pub alias : Text
  pub base_model : Text
  pub artifact : Text
  pub artifact_revision : Text
  pub quantization : Text
  pub runtime : Text
  pub minimum_vram_gib : ℕ
  pub recommended_vram_gib : ℕ
  pub gpu_architecture : Text
  pub default_port : ℕ
  pub max_model_len : ℕ

abbrev pub models : List (Text × Entry)
models =
    (
      codes "qwen3.6-35b-a3b",
      record {
        alias = codes "qwen3.6-35b-a3b";
        base_model = codes "Qwen/Qwen3.6-35B-A3B";
        artifact = codes "unsloth/Qwen3.6-35B-A3B-NVFP4-Fast";
        artifact_revision = codes "MOCK_REVISION_PIN_PENDING_GPU_VALIDATION";
        quantization = codes "nvfp4";
        runtime = codes "vllm";
        minimum_vram_gib = 32;
        recommended_vram_gib = 48;
        gpu_architecture = codes "blackwell";
        default_port = 8000;
        max_model_len = 4096;
      },
    )
    ∷ []

find_entry : List (Text × Entry) → Text → Result Entry
find_entry [] alias = err (unknown_model alias)
find_entry ((key, entry) ∷ more) alias =
    let rest = find_entry more alias in if text_eq key alias then ok entry else rest

-- `Get`
unfoldable pub get_entry : Text → Result Entry
unfolding find_entry
get_entry alias = find_entry models alias

-- `List`
abbrev pub entries : List Entry
entries = entries_of models
  where
    entries_of : List (Text × Entry) → List Entry
    entries_of [] = []
    entries_of ((key, entry) ∷ more) = entry ∷ entries_of more

-- ===== src/Cli/Deploy/Spec.antt =====
-- `deploySpec`, `deployDeps` and the pure helpers of internal/cli/deploy.go.
use iold.Base.{ℕ, List, Text}

pub record DeploySpec : Type 0 where
  pub id : Text
  pub alias : Text
  pub artifact : Text
  pub revision : Text
  pub port : ℕ
  pub max_model_len : ℕ
  pub api_key : Text
  pub cache_dir : Text
  pub quantization : Text
  pub min_driver_major : ℕ
  pub min_compute_major : ℕ
  pub min_vram_mib : ℕ
  pub min_disk_gib : ℕ

-- The fields that `executeDeploy` reads; durations are nanoseconds.
pub record Deps : Type 0 where
  pub vllm_command : DeploySpec → Text × List Text
  pub base_url : ℕ → Text
  pub health_timeout : ℕ
  pub ready_timeout : ℕ
  pub poll_interval : ℕ
  pub stop_grace : ℕ

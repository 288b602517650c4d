-- ===== src/Example/Live.antt =====
-- A host with a fitting GPU, an answering hub and a runtime that becomes healthy, and the clock of `machine`.
use iold.Base.{ℕ, ◌+◌, true, none, some, [], ◌∷◌, List, Text, arith, codes}
use iold.Host.{
  Host, delivered, File, proc_stat, proc_cmdline, boot_stat, path, Read, content, absent, directory,
  Request, health, list_models, chat, Response, answered, flocked,
}
use iold.Hub.{Model, replied}

abbrev pub example_sha : Text
example_sha = codes "0123456789abcdef0123456789abcdef01234567"

abbrev pub hub_answer : Text → Model
hub_answer id = record {
  id = id;
  sha = example_sha;
  gated = record { is_gated = iold.Base.false; mode = [] };
  downloads = 10;
  tags = [];
  safetensors = some ((codes "BF16", 7000000000) ∷ []);
}

-- The files of process 42, whose command is `vllm serve`.
abbrev pub file_of : File → Read
file_of (proc_stat pid) =
    content (codes "42 (vllm) S 1 42 42 0 -1 4194304 1 0 0 0 1 1 0 0 20 0 1 0 500 1")
file_of (proc_cmdline pid) = content (codes "vllm serve")
file_of boot_stat = content (codes "btime 1700000000")
file_of (path p) = absent

abbrev pub response_of : Text → Request → Response
response_of id (health base) = answered 200 (some [])
response_of id (list_models base key) = answered 200 (some (id ∷ []))
response_of id (chat base key model) = answered 200 (some (codes "hi" ∷ []))

-- `id` is the model that the runtime serves.
abbrev pub live : Text → Host
live id = record {
  Os = ℕ;
  now = λ s. (s, s);
  sleep = λ d s. s + d;
  kill = λ t g s. (delivered, s);
  getpgid = λ p s. (some 42, s);
  getpid = 1;
  getconf_clk_tck = none;
  read_file = λ f s. (file_of f, s);
  ps_command = λ p s. (none, s);
  ps_all = λ s. (some [], s);
  start_log_proxy = λ p s. (true, s);
  start_command = λ l s. (some 42, s);
  kill_child = λ p s. s;
  remove_all = λ p s. (true, s);
  mkdir_all = λ p s. (true, s);
  chmod = λ p m s. (true, s);
  write_file = λ p t s. (true, s);
  create_exclusive = λ p t s. (true, s);
  stat = λ p s. (directory, s);
  lstat = λ p s. (directory, s);
  read_dir = λ p s. (some [], s);
  random_hex = λ n s. (codes "00ff", s);
  http = λ r s. (response_of id r, s);
  nvidia_smi = λ s. (some (codes "NVIDIA RTX PRO 6000, 575.51.03, 97887, 12.0"), s);
  statfs = λ p s. (some (200000000, 4096), s);
  head = λ u s. (some 200, s);
  look_path = λ p s. (true, s);
  free_ports = λ s. (λ p. true, s);
  hub_model = λ c id s. (replied 200 (some (hub_answer id)), s);
  hub_config = λ c id r s. (replied 404 none, s);
  hub_search = λ c q n s. (
    replied 200 (some (hub_answer (codes "org/m-AWQ") ∷ hub_answer (codes "org/M-awq") ∷ [])),
    s,
  );
  open_create = λ p s. (true, s);
  chmod_open = λ p m s. (true, s);
  flock = λ p n s. (flocked, s);
  unlock = λ p s. (true, s);
  close_file = λ p s. s;
  clock = λ s. s;
  now_clock = λ s. (omega arith, omega arith);
  sleep_clock = λ d s. omega arith;
  kill_clock = λ t g s. omega arith;
  read_clock = λ f s. omega arith;
  ps_clock = λ p s. omega arith;
  http_clock = λ r s. omega arith;
}

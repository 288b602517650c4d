-- ===== src/Example/Machine.antt =====
-- A host without processes and files, where every change succeeds and the clock moves only in sleep.
use iold.Base.{ℕ, ◌+◌, true, none, some, [], arith, codes}
use iold.Host.{Host, no_such_process, absent, no_file, unreachable, flocked}
use iold.Hub.{no_reply}

abbrev pub machine : Host
machine = record {
  Os = ℕ;
  now = λ s. (s, s);
  sleep = λ d s. s + d;
  kill = λ t g s. (no_such_process, s);
  getpgid = λ p s. (none, s);
  getpid = 1;
  getconf_clk_tck = none;
  read_file = λ f s. (absent, s);
  ps_command = λ p s. (none, s);
  ps_all = λ s. (some [], s);
  start_log_proxy = λ p s. (true, s);
  start_command = λ l s. (none, s);
  kill_child = λ p s. s;
  remove_all = λ p s. (true, s);
  mkdir_all = λ p s. (true, s);
  chmod = λ p m s. (true, s);
  write_file = λ p t s. (true, s);
  create_exclusive = λ p t s. (true, s);
  stat = λ p s. (no_file, s);
  lstat = λ p s. (no_file, s);
  read_dir = λ p s. (some [], s);
  random_hex = λ n s. (codes "00ff", s);
  http = λ r s. (unreachable, s);
  nvidia_smi = λ s. (some (codes "NVIDIA RTX PRO 6000, 575.51.03, 97887, 12.0"), s);
  statfs = λ p s. (some (200000000, 4096), s);
  head = λ u s. (some 200, s);
  look_path = λ p s. (true, s);
  free_ports = λ s. (λ p. true, s);
  hub_model = λ c id s. (no_reply, s);
  hub_config = λ c id r s. (no_reply, s);
  hub_search = λ c q n s. (no_reply, s);
  open_create = λ p s. (true, s);
  chmod_open = λ p m s. (true, s);
  flock = λ p n s. (flocked, s);
  unlock = λ p s. (true, s);
  close_file = λ p s. s;
  clock = λ s. s;
  now_clock = λ s. (omega arith, omega arith);
  sleep_clock = λ d s. omega arith;
  kill_clock = λ t g s. omega arith;
  read_clock = λ f s. omega arith;
  ps_clock = λ p s. omega arith;
  http_clock = λ r s. omega arith;
}

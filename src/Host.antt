-- ===== src/Host.antt =====
-- The operating system and the servers that the program calls. Their answers are arbitrary functions
-- of a state `Os` that every call may change; only the clock has laws.
use iold.Base.{ℕ, ◌+◌, ◌≤◌, Bool, Option, List, Text}
use iold.Hub.{Client, Model, Config, Reply}

pub data Signal : Type 0 where
  -- signal 0, SIGTERM, SIGKILL
  probe terminate kill_now : Signal

pub data Target : Type 0 where
  process : ℕ → Target
  group : ℕ → Target

-- nil, EPERM, ESRCH, any other error
pub data Errno : Type 0 where
  delivered not_permitted no_such_process other_errno : Errno

-- The files of /proc that the supervisor reads, and any other file by its path.
pub data File : Type 0 where
  proc_stat : ℕ → File
  proc_cmdline : ℕ → File
  boot_stat : File
  path : Text → File

pub data Read : Type 0 where
  content : Text → Read
  absent : Read
  unreadable : Read

-- os.Stat, os.Lstat
pub data Stat : Type 0 where
  directory symlink other_file no_file stat_failed : Stat

-- supervisor.Spec, without the directory, which the program leaves empty
pub record Launch : Type 0 where
  pub command : Text
  pub args : List Text
  pub env : List (Text × Text)
  pub log_path : Text

pub data Request : Type 0 where
  health : (base : Text) → Request
  list_models : (base key : Text) → Request
  chat : (base key model : Text) → Request

-- The part of a response that the program reads: the status, and what `json.Unmarshal` gives for a
-- body, the names of the models or the contents of the choices.
pub data Response : Type 0 where
  unreachable : Response
  answered : (status : ℕ) (body : Option (List Text)) → Response

-- flock with LOCK_EX; EWOULDBLOCK and EAGAIN come only with LOCK_NB.
pub data Flock : Type 0 where
  flocked would_block flock_failed : Flock

pub record Host : Type 1 where
  pub Os : Type 0
  pub now : Os → ℕ × Os
  pub sleep : ℕ → Os → Os
  pub kill : Target → Signal → Os → Errno × Os
  pub getpgid : ℕ → Os → Option ℕ × Os
  pub getpid : ℕ
  pub getconf_clk_tck : Option Text
  pub read_file : File → Os → Read × Os
  -- ps -p PID -o command=, ps -ax -o pid= -o command=
  pub ps_command : ℕ → Os → Option Text × Os
  pub ps_all : Os → Option Text × Os
  -- supervisor.startLogProxy: the pipe and the helper that redacts into the log file
  pub start_log_proxy : Text → Os → Bool × Os
  -- exec.Cmd.Start with the log proxy's pipe; the child leads a new session
  pub start_command : Launch → Os → Option ℕ × Os
  -- Kill and Wait on the handle of a child that was just started
  pub kill_child : ℕ → Os → Os
  -- true when the call succeeds
  pub remove_all : Text → Os → Bool × Os
  pub mkdir_all : Text → Os → Bool × Os
  pub chmod : Text → ℕ → Os → Bool × Os
  pub write_file : Text → Text → Os → Bool × Os
  pub create_exclusive : Text → Text → Os → Bool × Os
  pub stat : Text → Os → Stat × Os
  pub lstat : Text → Os → Stat × Os
  pub read_dir : Text → Os → Option (List Text) × Os
  pub random_hex : ℕ → Os → Text × Os
  pub http : Request → Os → Response × Os
  -- nvidia-smi --query-gpu=… --format=csv,noheader,nounits
  pub nvidia_smi : Os → Option Text × Os
  -- syscall.Statfs: Bavail and Bsize
  pub statfs : Text → Os → Option (ℕ × ℕ) × Os
  -- the status that a HEAD request is answered with
  pub head : Text → Os → Option ℕ × Os
  -- true when exec.LookPath finds the program
  pub look_path : Text → Os → Bool × Os
  -- which ports can be listened on, one after the other, while one port is chosen
  pub free_ports : Os → (ℕ → Bool) × Os
  -- The hub: GET …/api/models/ID, GET …/ID/raw/REVISION/config.json, and the search for a text.
  pub hub_model : Client → Text → Os → Reply Model × Os
  pub hub_config : Client → Text → Text → Os → Reply Config × Os
  pub hub_search : Client → Text → ℕ → Os → Reply (List Model) × Os
  -- os.OpenFile with O_CREATE and O_RDWR, and what is done with the open file
  pub open_create : Text → Os → Bool × Os
  pub chmod_open : Text → ℕ → Os → Bool × Os
  pub flock : Text → (nonblocking : Bool) → Os → Flock × Os
  -- flock with LOCK_UN
  pub unlock : Text → Os → Bool × Os
  pub close_file : Text → Os → Os
  -- The monotonic clock: `time.Now` reads it, no call sets it back, and `time.Sleep` pauses at
  -- least as long as it is told to.
  pub clock : Os → ℕ
  pub now_clock : (s : Os) → (clock s ≤ (now s).0) × ((now s).0 ≤ clock (now s).1)
  pub sleep_clock : (d : ℕ) (s : Os) → clock s + d ≤ clock (sleep d s)
  pub kill_clock : (t : Target) (g : Signal) (s : Os) → clock s ≤ clock (kill t g s).1
  pub read_clock : (f : File) (s : Os) → clock s ≤ clock (read_file f s).1
  pub ps_clock : (pid : ℕ) (s : Os) → clock s ≤ clock (ps_command pid s).1
  pub http_clock : (r : Request) (s : Os) → clock s ≤ clock (http r s).1

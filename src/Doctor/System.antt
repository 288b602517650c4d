-- ===== src/Doctor/System.antt =====
-- internal/doctor/probes.go: the interface `Probes`, and the implementation that asks the system.
use iold.Base.{
  ℕ, ◌*◌, leb, wrap, Bool, true, false, List, [], ◌∷◌, reverse, Text, is_empty, split, before_byte,
  trim_space, atoi, Option, none, some, if◌then◌else◌,
}
use iold.Fault.{Result, ok, err, system_failed}
use iold.Host.{Host, Stat, no_file, stat_failed}
use iold.Cli.Paths.{render, clean_path}

pub record Gpu : Type 0 where
  pub name : Text
  pub driver_version : Text
  pub vram_mib : ℕ
  pub compute_cap_major : ℕ

pub record Probes (O : Type 0) : Type 0 where
  pub gpus : O → Result (List Gpu) × O
  pub disk_free_bytes : Text → O → Result ℕ × O
  pub check_endpoint : Text → O → Result (Unit {0}) × O

gpu_with : Text → Text → Option ℕ → Option ℕ → Option Gpu
gpu_with name driver (some vram) (some major) =
    some
      (record { name = name; driver_version = driver; vram_mib = vram; compute_cap_major = major })
gpu_with name driver _ _ = none

-- One line of four fields; an error is `none`.
unfoldable pub gpu_of : List Text → Option Gpu
unfolding gpu_with
gpu_of (name ∷ driver ∷ memory ∷ cap ∷ []) =
    gpu_with (trim_space name) (trim_space driver) (atoi (trim_space memory))
      (atoi (before_byte b'.' (trim_space cap)))
gpu_of _ = none

both : Option Gpu → Option (List Gpu) → Option (List Gpu)
both (some g) (some gs) = some (g ∷ gs)
both _ _ = none

unfoldable pub parse_lines : List Text → Option (List Gpu)
unfolding both
parse_lines [] = some []
parse_lines (line ∷ lines) =
    let rest = parse_lines lines in
    if is_empty (trim_space line) then rest else both (gpu_of (split b',' line)) rest

unfoldable pub parse_nvidia_smi : Text → Option (List Gpu)
unfolding parse_lines gpu_of
parse_nvidia_smi out = parse_lines (split b'\n' (trim_space out))

-- The answer of the command, parsed.
unfoldable pub gpus_of : Option Text → Result (List Gpu)
unfolding parse_nvidia_smi
gpus_of none = err system_failed
gpus_of (some out) = elim (parse_nvidia_smi out) [ none ↦ err system_failed | some gs ↦ ok gs ]

abbrev is_there : Stat → Bool
is_there no_file = false
is_there stat_failed = false
is_there _ = true

-- The nearest existing ancestor; `up` are the segments of a path, last first.
unfoldable pub nearest : (h : Host) → List Text → h.Os → Option Text × h.Os
nearest h [] s =
    let (found, s') = h.stat (render []) s in
    (if is_there found then some (render []) else none, s')
nearest h (name ∷ up) s =
    let here = render (reverse (name ∷ up)) in
    let (found, s') = h.stat here s in
    let rest = nearest h up s' in if is_there found then (some here, s') else rest

unfoldable pub bytes_of : Option (ℕ × ℕ) → Result ℕ
bytes_of none = err system_failed
bytes_of (some (available, size)) = ok (wrap (available * size))

free_at : (h : Host) → Option Text → h.Os → Result ℕ × h.Os
free_at h none s = (err system_failed, s)
free_at h (some dir) s = let (stat, s') = h.statfs dir s in (bytes_of stat, s')

free_below : (h : Host) → Option (List Text) → h.Os → Result ℕ × h.Os
unfolding free_at
free_below h none s = (err system_failed, s)
free_below h (some segments) s = let (dir, s') = nearest h (reverse segments) s in free_at h dir s'

-- For a path that is absolute, as those of the cache are.
unfoldable pub disk_free_bytes : (h : Host) → Text → h.Os → Result ℕ × h.Os
unfolding free_below
disk_free_bytes h path s = free_below h (clean_path path) s

endpoint_of : Option ℕ → Result (Unit {0})
endpoint_of none = err system_failed
endpoint_of (some status) = if leb 500 status then err system_failed else ok tt

-- `SystemProbes`
unfoldable pub system_probes : (h : Host) → Probes h.Os
unfolding gpus_of disk_free_bytes endpoint_of
system_probes h = record {
  gpus = λ s. let (out, s') = h.nvidia_smi s in (gpus_of out, s');
  disk_free_bytes = λ path s. disk_free_bytes h path s;
  check_endpoint = λ url s. let (status, s') = h.head url s in (endpoint_of status, s');
}

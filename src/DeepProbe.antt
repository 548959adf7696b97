-- ===== src/DeepProbe.antt =====
-- runDeepHTTPProbe of main.go: the second HTTP probe of the open ports of all hosts.
use ipscry.Common.{
  ℕ, ◌+◌, Bool, not, Option, none, some, List, [], ◌∷◌, ◌++◌, ◌==◌, if◌then◌else◌, length,
  get_elem?, set, Go, done, ◌>>=◌, Bytes,
}
use ipscry.Common.Text.{text_eq}
use ipscry.Hosts.{PortResult, HostResult}
use ipscry.Catalog.{PortEntry}
use ipscry.Scan.{Network, port_needs_http_probe, deep_probe_http_port}

-- A job of the second HTTP probe
pub record HttpJob : Type 0 where
  pub host_idx : ℕ
  pub port_idx : ℕ
  pub ip : Bytes
  pub port : PortResult

module _ (lower unescape : Bytes → Bytes) (net : Network) (entries : List (ℕ × PortEntry)) where
  unfoldable pub port_jobs : ℕ → ℕ → Bytes → List PortResult → List HttpJob
  unfolding port_needs_http_probe
  port_jobs i j ip [] = []
  port_jobs i j ip (p ∷ ports) =
      let rest = port_jobs i (j + 1) ip ports in
      if port_needs_http_probe lower unescape net entries p
      then record { host_idx = i; port_idx = j; ip = ip; port = p } ∷ rest
      else rest

  unfoldable pub http_jobs : ℕ → List HostResult → List HttpJob
  unfolding port_jobs
  http_jobs i [] = []
  http_jobs i (h ∷ hosts) = port_jobs i 0 h.ip h.open_ports ++ http_jobs (i + 1) hosts

  -- The write of a job's port, behind the checks on its indices
  unfoldable pub write_port : HttpJob → PortResult → Option PortResult → HostResult → HostResult
  write_port j updated none host = host
  write_port j updated (some old) host =
      if old.port == j.port.port
      then record host { open_ports = set host.open_ports j.port_idx updated }
      else host

  unfoldable pub write_host :
      HttpJob → PortResult → Option HostResult → List HostResult → List HostResult
  unfolding write_port
  write_host j updated none hosts = hosts
  write_host j updated (some host) hosts =
      if text_eq host.ip j.ip
      then set hosts j.host_idx (write_port j updated (get_elem? host.open_ports j.port_idx) host)
      else hosts

  -- The goroutine of a job, without a monitor
  unfoldable pub run_job : HttpJob → List HostResult → Go (List HostResult)
  unfolding deep_probe_http_port write_host
  run_job j hosts = do
    updated ← deep_probe_http_port lower unescape net entries j.ip j.port
    done (
        if length updated.http_status == 0
        then hosts
        else write_host j updated (get_elem? hosts j.host_idx) hosts)

  unfoldable pub run_jobs : List HttpJob → List HostResult → Go (List HostResult)
  unfolding run_job
  run_jobs [] hosts = done hosts
  run_jobs (j ∷ jobs) hosts = do hosts' ← run_job j hosts; run_jobs jobs hosts'

  -- `timed` is `timeout > 0` before the scan is cancelled.
  unfoldable pub run_deep_http_probe : Bool → List HostResult → Go (List HostResult)
  unfolding http_jobs run_jobs
  run_deep_http_probe timed hosts =
      if not timed then done hosts else run_jobs (http_jobs 0 hosts) hosts

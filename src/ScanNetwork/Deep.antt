-- ===== src/ScanNetwork/Deep.antt =====
-- The second HTTP probe of scanNetwork, which keeps the hosts, and the order of addresses.
use ipscry.Common.{
  ℕ, zero, suc, ◌^◌, ◌<◌, ◌≡◌, refl, ap, ◌⊎◌, inl, inr, Bool, true, false, Option, none, some, List,
  [], ◌∷◌, map, arith, ltb, ◌==◌, if◌then◌else◌, Bool-cases, length, get_elem?, set, Returns,
  Returns-bind, returned, Bytes,
}
use ipscry.Common.Text.{text_eq, text_lt}
use mathlib.Core.Path.{subst}
use ipscry.Hosts.{PortResult, HostResult}
use ipscry.Catalog.{PortEntry}
use ipscry.Ipv4.Value.{to_ip, less_ip-to_ip}
use ipscry.Scan.{Network, deep_probe_http_port}
use ipscry.DeepProbe.{
  HttpJob, http_jobs, write_port, write_host, run_job, run_jobs, run_deep_http_probe,
}
use ipscry.Ipv4.{less_address}

abbrev pub ips_of : List HostResult → List Bytes
ips_of = map (λ h. h.ip)

-- What net.ParseIP makes of the plain texts of IPv4 addresses: a number below 2 ^ 32, another one for
-- another text
pub record Reader (parse : Bytes → Option Bytes) : Type 0 where
  pub plain : Bytes → Bool
  pub value : Bytes → ℕ
  pub bound : (k : Bytes) → plain k ≡ true → value k < 2 ^ 32
  pub reads : (k : Bytes) → plain k ≡ true → parse k ≡ some (to_ip (value k))
  pub apart : (j k : Bytes) → plain j ≡ true → plain k ≡ true → value j ≡ value k → j ≡ k

pub less_address-value :
    (parse : Bytes → Option Bytes) (r : Reader parse) (a b : Bytes)
    → r.plain a ≡ true
    → r.plain b ≡ true
    → less_address parse a b ≡ ltb (r.value a) (r.value b)
unfolding less_address
less_address-value parse r a b h k =
    rw (r.reads a h, r.reads b k)
      (less_ip-to_ip (r.value a) (r.value b) (text_lt a b) (r.bound a h) (r.bound b k))

-- The writes of the second probe leave the addresses.
pub set_ips :
    (hosts : List HostResult) (i : ℕ) (h h' : HostResult)
    → get_elem? hosts i ≡ some h
    → h'.ip ≡ h.ip
    → ips_of (set hosts i h') ≡ ips_of hosts
set_ips [] i h h' e same = refl
set_ips (x ∷ hosts) zero h h' e same =
    let first : x ≡ h = ground arith in ap (λ a. a ∷ ips_of hosts) (rw (first) same)
set_ips (x ∷ hosts) (suc i) h h' e same = ap (λ l. x.ip ∷ l) (set_ips hosts i h h' e same)

module _ (lower unescape : Bytes → Bytes) (net : Network) (entries : List (ℕ × PortEntry)) where
  pub write_port-ip :
      (j : HttpJob) (p : PortResult) (old : Option PortResult) (h : HostResult)
      → (write_port lower unescape net entries j p old h).ip ≡ h.ip
  unfolding write_port
  write_port-ip j p none h = refl
  write_port-ip j p (some old) h = elim (Bool-cases (old.port == j.port.port)) [
    | inl e ↦ rw (e) refl
    | inr e ↦ rw (e) refl
  ]

  pub write_host-ips :
      (j : HttpJob) (p : PortResult) (o : Option HostResult) (hosts : List HostResult)
      → get_elem? hosts j.host_idx ≡ o
      → ips_of (write_host lower unescape net entries j p o hosts) ≡ ips_of hosts
  unfolding write_host
  write_host-ips j p none hosts e = refl
  write_host-ips j p (some h) hosts e = elim (Bool-cases (text_eq h.ip j.ip)) [
    | inl same ↦ rw (same) (set_ips hosts j.host_idx h _ e (write_port-ip j p _ h))
    | inr other ↦ rw (other) refl
  ]

  pub run_job-ips :
      (j : HttpJob) (hosts : List HostResult)
      → Returns (λ out. ips_of out ≡ ips_of hosts) (run_job lower unescape net entries j hosts)
  unfolding run_job
  run_job-ips j hosts =
      Returns-bind (λ p. Unit) (λ out. ips_of out ≡ ips_of hosts)
        (deep_probe_http_port lower unescape net entries j.ip j.port) _ (returned _)
        (λ p h. written p (Bool-cases (length p.http_status == 0)))
    where
      written :
          (p : PortResult)
          → ((length p.http_status == 0) ≡ true) ⊎ ((length p.http_status == 0) ≡ false)
          → ips_of (
              if length p.http_status == 0
              then hosts
              else write_host lower unescape net entries j p (get_elem? hosts j.host_idx) hosts)
            ≡ ips_of hosts
      written p (inl e) = rw (e) refl
      written p (inr e) = rw (e) (write_host-ips j p _ hosts refl)

  pub run_jobs-ips :
      (jobs : List HttpJob) (hosts : List HostResult)
      → Returns (λ out. ips_of out ≡ ips_of hosts) (run_jobs lower unescape net entries jobs hosts)
  unfolding run_jobs
  run_jobs-ips [] hosts = refl
  run_jobs-ips (j ∷ jobs) hosts =
      Returns-bind (λ mid. ips_of mid ≡ ips_of hosts) (λ out. ips_of out ≡ ips_of hosts)
        (run_job lower unescape net entries j hosts) _ (run_job-ips j hosts)
        (λ mid same.
          subst
            (λ l. Returns (λ out. ips_of out ≡ l) (run_jobs lower unescape net entries jobs mid))
            same (run_jobs-ips jobs mid))

  pub run_deep_http_probe-ips :
      (timed : Bool) (hosts : List HostResult)
      → Returns
          (λ out. ips_of out ≡ ips_of hosts)
          (run_deep_http_probe lower unescape net entries timed hosts)
  unfolding run_deep_http_probe
  run_deep_http_probe-ips true hosts =
      run_jobs-ips (http_jobs lower unescape net entries 0 hosts) hosts
  run_deep_http_probe-ips false hosts = refl

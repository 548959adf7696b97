-- ===== src/Scan.antt =====
-- Scanning in main.go: extractTitle, scanPort and its probes, the second HTTP probe, and the part of
-- scanNetwork and scanIPPorts that collects the results. What the network answers is an argument, and so
-- are `strings.ToLower` and `html.UnescapeString`.
pub mod Sorting
pub mod Order
pub mod Title
use ipscry.Common.{
  ℕ, ◌+◌, ◌/◌, ◌<◌, Bool, true, false, not, ◌&&◌, Option, none, some, List, [], ◌∷◌, ◌++◌, map, ltb,
  leb, ◌==◌, if◌then◌else◌, length, take, Go, done, ◌>>=◌, slice, Bytes,
}
use ipscry.Common.Text.{codes, index}
use ipscry.Common.Trim.{trim_space}
use ipscry.Common.Int.{ℤ}
use ipscry.Common.Maps.{find, put}
use ipscry.Sanitize.{sanitize_one_line}
use ipscry.Hosts.{PortResult}
use ipscry.Catalog.{PortInfo, PortEntry, find_port, port_catalog, service_label, port_vendors}

-- What a request got: the error, or the parts of the response that the scan reads; the subject
-- is the certificate's, if there is one.
pub record HttpResponse : Type 0 where
  pub status : Bytes
  pub status_code : ℕ
  pub location : Bytes
  pub server : Bytes
  pub subject : Option Bytes
  pub body : Bytes

pub data HttpAnswer : Type 0 where
  http_error : Bytes → HttpAnswer
  http_response : HttpResponse → HttpAnswer

pub data TlsAnswer : Type 0 where
  tls_error : Bytes → TlsAnswer
  tls_connection : Option Bytes → TlsAnswer

-- The network, as a scan of an address and a port sees it; `resolve` is `base.Parse` of a location, or the
-- location where that fails, `latency` is what a probe took in
-- milliseconds, and `banner` is what a connection sends in the time that it is given.
pub record Network : Type 0 where
  pub http_get : Bytes → ℕ → HttpAnswer
  pub resolve : Bytes → ℕ → Bytes → Bytes
  pub tls_dial : Bytes → ℕ → TlsAnswer
  pub tcp_dial : Bytes → ℕ → Bool
  pub banner : Bytes → ℕ → Bytes
  pub latency : Bytes → ℕ → ℤ

pub record PortScanResult : Type 0 where
  pub ip : Bytes
  pub port : PortResult
  pub latency_ms : ℤ

-- `body[lo:hi]` from a place on
abbrev from : ℕ → Bytes → Go Bytes
from lo s = slice s lo (length s)

-- The title, between its start and the place of `</title>` behind it
unfoldable pub cut_title : (Bytes → Bytes) → Bytes → ℕ → Option ℕ → Go Bytes
cut_title unescape body start none = done []
cut_title unescape body start (some stop) = do
  title ← slice body start (start + stop)
  done (sanitize_one_line (unescape title))

-- The same, from the place of `<title` and that of the `>` behind it
unfoldable pub close_title : (Bytes → Bytes) → Bytes → Bytes → ℕ → Option ℕ → Go Bytes
unfolding cut_title
close_title unescape body lower first none = done []
close_title unescape body lower first (some start) = do
  rest ← from (first + start + 1) lower
  cut_title unescape body (first + start + 1) (index (codes "</title>") rest)

unfoldable pub open_title : (Bytes → Bytes) → Bytes → Bytes → Option ℕ → Go Bytes
unfolding close_title
open_title unescape body lower none = done []
open_title unescape body lower (some first) = do
  rest ← from first lower
  close_title unescape body lower first (index (codes ">") rest)

unfoldable pub extract_title : (Bytes → Bytes) → (Bytes → Bytes) → Bytes → Go Bytes
unfolding open_title
extract_title lower unescape body =
    open_title unescape body (lower body) (index (codes "<title") (lower body))

-- The certificate's subject, where there is one
abbrev pub with_subject : Option Bytes → PortResult → PortResult
with_subject none pr = pr
with_subject (some subject) pr = record pr { tls_subject = sanitize_one_line subject }

module _ (lower unescape : Bytes → Bytes) (net : Network) (ports : List (ℕ × PortEntry)) where
  abbrev pub with_redirect : Bytes → HttpResponse → PortResult → PortResult
  with_redirect ip r pr =
      let loc = trim_space r.location in
      if leb 300 r.status_code && (ltb r.status_code 400 && not (length loc == 0))
      then record pr { http_redirect = sanitize_one_line (net.resolve ip pr.port loc) }
      else pr

  -- What a response with this title says of the port
  abbrev pub responded : Bytes → HttpResponse → PortResult → Bytes → PortResult
  responded ip r pr title =
      let p = with_redirect ip r (record pr { http_status = r.status }) in
      let q = with_subject r.subject (record p { http_server = sanitize_one_line r.server }) in
      record q { http_title = title }

  -- `probeHTTP`: whether there was a response, and the port with what it says
  unfoldable pub http_answer : Bytes → PortResult → HttpAnswer → Go (Bool × PortResult)
  unfolding extract_title
  http_answer ip pr (http_error e) = done (false, record pr { probe_error = sanitize_one_line e })
  http_answer ip pr (http_response r) = do
    title ← extract_title lower unescape (take 65536 r.body)
    done (true, responded ip r pr title)

  unfoldable pub probe_http : Bytes → PortResult → Go (Bool × PortResult)
  unfolding http_answer
  probe_http ip pr = http_answer ip pr (net.http_get ip pr.port)

  -- `probeTLS`
  unfoldable pub tls_answer : PortResult → TlsAnswer → Bool × PortResult
  tls_answer pr (tls_error e) = (
    false,
    if length pr.probe_error == 0 then record pr { probe_error = sanitize_one_line e } else pr,
  )
  tls_answer pr (tls_connection subject) = (true, with_subject subject pr)

  unfoldable pub probe_tls : Bytes → PortResult → Bool × PortResult
  unfolding tls_answer
  probe_tls ip pr = tls_answer pr (net.tls_dial ip pr.port)

  -- A port that nothing is known of yet
  unfoldable pub new_port : ℕ → PortResult
  new_port port = record {
    port = port;
    service = service_label ports port;
    vendors = port_vendors ports port;
    banner = [];
    http_status = [];
    http_server = [];
    http_title = [];
    http_redirect = [];
    tls_subject = [];
    probe_error = [];
  }

  -- `portCatalog[port]`, the zero of portInfo where there is none
  abbrev pub port_info : ℕ → PortInfo
  port_info port = elim (find_port port port_catalog) [
    | none ↦ record { service = []; banner = false; http = false; tls = false }
    | some info ↦ info
  ]

  abbrev found : Bytes → PortResult → Option PortScanResult
  found ip pr = some (record { ip = ip; port = pr; latency_ms = net.latency ip pr.port })

  -- The plain connection
  unfoldable pub probe_tcp : Bytes → PortInfo → PortResult → Option PortScanResult
  probe_tcp ip info pr =
      let greeting = net.banner ip pr.port in
      if not (net.tcp_dial ip pr.port)
      then none
      else found ip (
          if info.banner && not (length greeting == 0)
          then record pr { banner = sanitize_one_line (take 256 greeting) }
          else pr)

  -- The probes behind HTTP
  unfoldable pub probe_rest : Bytes → PortInfo → PortResult → Option PortScanResult
  unfolding probe_tls probe_tcp
  probe_rest ip info pr =
      let (ok, tried) = probe_tls ip pr in
      if info.tls && not info.http
      then (if ok then found ip tried else probe_tcp ip info tried)
      else probe_tcp ip info pr

  unfoldable pub scan_port : Bytes → ℕ → Go (Option PortScanResult)
  unfolding probe_http probe_rest new_port
  scan_port ip port =
      let info = port_info port in
      let probed = do
        (ok, pr) ← probe_http ip (new_port port)
        done (if ok then found ip pr else probe_rest ip info pr)
      in if info.http then probed else done (probe_rest ip info (new_port port))

  -- The results of the ports one after another: what the workers find, in some order
  unfoldable pub scan_each : Bytes → List ℕ → Go (List PortScanResult)
  unfolding scan_port
  scan_each ip [] = done []
  scan_each ip (port ∷ rest) = do
    result ← scan_port ip port
    more ← scan_each ip rest
    done (elim result [ none ↦ more | some r ↦ r ∷ more ])

  unfoldable pub port_needs_http_probe : PortResult → Bool
  port_needs_http_probe pr = (port_info pr.port).http && length pr.http_status == 0

  unfoldable pub deep_probe_http_port : Bytes → PortResult → Go PortResult
  unfolding probe_http
  deep_probe_http_port ip pr = do
    (ok, out) ← probe_http ip (record (new_port pr.port) {
      service = pr.service;
      vendors = pr.vendors;
      banner = pr.banner;
    })
    done out

  -- The round of `runDeepHTTPProbe` for a port, without a monitor
  unfoldable pub refresh_one : Bytes → PortResult → Go PortResult
  unfolding deep_probe_http_port port_needs_http_probe
  refresh_one ip pr =
      let probed = do
        updated ← deep_probe_http_port ip pr
        done (if length updated.http_status == 0 then pr else updated)
      in if port_needs_http_probe pr then probed else done pr

-- `sort.Slice(open, …Port < …Port)`
unfoldable pub insert_result : PortResult → List PortResult → List PortResult
insert_result x [] = x ∷ []
insert_result x (y ∷ ys) =
    let rest = insert_result x ys in if ltb y.port x.port then y ∷ rest else x ∷ y ∷ ys

unfoldable pub sort_results : List PortResult → List PortResult
unfolding insert_result
sort_results [] = []
sort_results (x ∷ xs) = insert_result x (sort_results xs)

-- `scanIPPorts`: the results of the workers, in the order in which they come
unfoldable pub scan_ip_ports : List PortScanResult → List PortResult
unfolding sort_results
scan_ip_ports arrived = sort_results (map (λ r. r.port) arrived)

-- `byIP[result.ip] = append(byIP[result.ip], result.port)`
unfoldable pub add_result :
    PortScanResult → List (Bytes × List PortResult) → List (Bytes × List PortResult)
unfolding find put
add_result r by_ip =
    put r.ip (elim (find r.ip by_ip) [ none ↦ [] | some found_open ↦ found_open ] ++ r.port ∷ [])
      by_ip

unfoldable pub collect :
    List PortScanResult → List (Bytes × List PortResult) → List (Bytes × List PortResult)
unfolding add_result
collect [] by_ip = by_ip
collect (r ∷ results) by_ip = collect results (add_result r by_ip)

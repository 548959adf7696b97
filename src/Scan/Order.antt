-- ===== src/Scan/Order.antt =====
-- The scan of a host, and the order in which its workers finish.
use ipscry.Common.{
  ℕ, ◌<◌, ◌≡◌, refl, sym, ◌∙◌, Bool, true, false, not, ◌&&◌, Option, none, some, List, [], ◌∷◌, map,
  arith, if◌then◌else◌, take, All, done, Returns, Returns-bind, if_Returns, returned, Bytes,
}
use mathlib.Core.Path.{subst}
use mathlib.Core.List.{Permᴰ}
use mathlib.Core.List.Permᴰ
use ipscry.Hosts.{PortResult}
use ipscry.Catalog.{PortInfo, PortEntry}
use ipscry.Ports.Valid.{IsAscending}
use ipscry.Scan.{
  HttpResponse, HttpAnswer, http_error, http_response, TlsAnswer, tls_error, tls_connection,
  Network, PortScanResult, port_info, with_subject, with_redirect, responded, http_answer,
  tls_answer, probe_http, probe_tls, new_port, probe_tcp, probe_rest, scan_port, scan_each,
  scan_ip_ports, extract_title,
}
use ipscry.Scan.Sorting.{IsRising, IsDistinct-perm, IsRising-IsDistinct, sort-perm, sort-IsRising}

-- A result, if there is one, is of the port.
abbrev IsOf : ℕ → Option PortScanResult → Type 0
IsOf port none = Unit
IsOf port (some r) = r.port.port ≡ port

if_IsOf :
    (b : Bool) (r s : Option PortScanResult) (port : ℕ)
    → IsOf port r
    → IsOf port s
    → IsOf port (if b then r else s)
if_IsOf true r s port h k = h
if_IsOf false r s port h k = k

if_port :
    (b : Bool) (p q : PortResult) (n : ℕ) → p.port ≡ n → q.port ≡ n → (if b then p else q).port ≡ n
if_port true p q n h k = h
if_port false p q n h k = k

with_subject-port :
    (subject : Option Bytes) (pr : PortResult) → (with_subject subject pr).port ≡ pr.port
with_subject-port none pr = refl
with_subject-port (some s) pr = refl

module _ (lower unescape : Bytes → Bytes) (net : Network) (entries : List (ℕ × PortEntry)) where
  with_redirect-port :
      (ip : Bytes) (r : HttpResponse) (pr : PortResult)
      → (with_redirect lower unescape net entries ip r pr).port ≡ pr.port
  with_redirect-port ip r pr = if_port _ _ pr pr.port refl refl

  responded-port :
      (ip : Bytes) (r : HttpResponse) (pr : PortResult) (title : Bytes)
      → (responded lower unescape net entries ip r pr title).port ≡ pr.port
  responded-port ip r pr title =
      with_subject-port r.subject _ ∙ with_redirect-port ip r (record pr { http_status = r.status })

  http_answer-port :
      (ip : Bytes) (pr : PortResult) (a : HttpAnswer)
      → Returns (λ r. r.1.port ≡ pr.port) (http_answer lower unescape net entries ip pr a)
  unfolding http_answer
  http_answer-port ip pr (http_error e) = refl
  http_answer-port ip pr (http_response r) =
      Returns-bind (λ title. Unit) (λ x. x.1.port ≡ pr.port)
        (extract_title lower unescape (take 65536 r.body)) _ (returned _)
        (λ title h. responded-port ip r pr title)

  tls_answer-port :
      (pr : PortResult) (a : TlsAnswer)
      → (tls_answer lower unescape net entries pr a).1.port ≡ pr.port
  unfolding tls_answer
  tls_answer-port pr (tls_error e) = if_port _ _ pr pr.port refl refl
  tls_answer-port pr (tls_connection subject) = with_subject-port subject pr

  probe_tcp-IsOf :
      (ip : Bytes) (info : PortInfo) (pr : PortResult)
      → IsOf pr.port (probe_tcp lower unescape net entries ip info pr)
  unfolding probe_tcp
  probe_tcp-IsOf ip info pr =
      if_IsOf (not (net.tcp_dial ip pr.port)) none _ pr.port tt (if_port _ _ pr pr.port refl refl)

  probe_rest-IsOf :
      (ip : Bytes) (info : PortInfo) (pr : PortResult)
      → IsOf pr.port (probe_rest lower unescape net entries ip info pr)
  unfolding probe_rest probe_tls
  probe_rest-IsOf ip info pr =
      let tried = tls_answer lower unescape net entries pr (net.tls_dial ip pr.port) in
      let same = tls_answer-port pr (net.tls_dial ip pr.port) in
      if_IsOf (info.tls && not info.http) _ _ pr.port
        (if_IsOf tried.0 _ _ pr.port same (
          subst (λ n. IsOf n (probe_tcp lower unescape net entries ip info tried.1)) same
            (probe_tcp-IsOf ip info tried.1)))
        (probe_tcp-IsOf ip info pr)

  scan_port-IsOf :
      (ip : Bytes) (port : ℕ) → Returns (IsOf port) (scan_port lower unescape net entries ip port)
  unfolding scan_port new_port probe_http
  scan_port-IsOf ip port =
      let pr = new_port lower unescape net entries port in
      let info = port_info lower unescape net entries port in
      if_Returns (IsOf port) info.http _ _
        (Returns-bind (λ r. r.1.port ≡ port) (IsOf port)
          (http_answer lower unescape net entries ip pr (net.http_get ip port)) _
          (http_answer-port ip pr (net.http_get ip port))
          (λ r same. if_IsOf r.0 _ _ port same (
            subst (λ n. IsOf n (probe_rest lower unescape net entries ip info r.1)) same
              (probe_rest-IsOf ip info r.1))))
        (probe_rest-IsOf ip info pr)

  -- What is found on ascending ports, above each number that is below them
  abbrev AreFound : List ℕ → List PortScanResult → Type 0
  AreFound ports rs =
      IsRising (map (λ r. r.port) rs)
      × ((x : ℕ) → All (λ p. x < p) ports → All (λ y. x < y.port) (map (λ r. r.port) rs))

  one_more :
      (p : ℕ) (ports : List ℕ) (result : Option PortScanResult) (rs : List PortScanResult)
      → IsOf p result
      → All (λ y. p < y) ports
      → AreFound ports rs
      → AreFound (p ∷ ports) (elim result [ none ↦ rs | some r ↦ r ∷ rs ])
  one_more p ports none rs of low (rising, above) = (rising, λ x t. above x t.1)
  one_more p ports (some r) rs of low (rising, above) = (
    (above r.port.port (subst (λ n. All (λ y. n < y) ports) (sym of) low), rising),
    λ x t. (omega (arith, t.0), above x t.1),
  )

  scan_each-AreFound :
      (ip : Bytes) (ports : List ℕ)
      → IsAscending ports
      → Returns (AreFound ports) (scan_each lower unescape net entries ip ports)
  unfolding scan_each
  scan_each-AreFound ip [] h = (tt, λ x t. tt)
  scan_each-AreFound ip (p ∷ ports) (low, h) =
      Returns-bind (IsOf p) (AreFound (p ∷ ports)) (scan_port lower unescape net entries ip p) _
        (scan_port-IsOf ip p)
        (λ result of.
          Returns-bind (AreFound ports) (AreFound (p ∷ ports))
            (scan_each lower unescape net entries ip ports) _ (scan_each-AreFound ip ports h)
            (λ rs found. one_more p ports result rs of low found))

  -- Whatever the order in which the workers of scanIPPorts hand in their results, the ports that it returns for
  -- an address are the ones, and in the order, that scanning one port after another gives, if the ports to
  -- scan are ascending and no probe panics.
  pub scan_ip_ports-scan_each :
      (ip : Bytes) (ports : List ℕ) (rs arrived : List PortScanResult)
      → IsAscending ports
      → scan_each lower unescape net entries ip ports ≡ done rs
      → Permᴰ (map (λ r. r.port) arrived) (map (λ r. r.port) rs)
      → scan_ip_ports arrived ≡ map (λ r. r.port) rs
  unfolding scan_ip_ports
  scan_ip_ports-scan_each ip ports rs arrived h e p =
      let (rising, above) = subst (Returns (AreFound ports)) e (scan_each-AreFound ip ports h) in
      let distinct = IsDistinct-perm _ _ (Permᴰ.symm p) (IsRising-IsDistinct _ rising) in
      sort-perm _ _ p distinct ∙ sort-IsRising _ rising

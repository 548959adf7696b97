-- ===== src/Stream.antt =====
-- stream_json.go: streamJSONMonitor, which writes an event a line. The JSON encoding is left out: an
-- event is the map that is encoded. `strings.ToLower` on any text is an argument, and so is what each
-- event reads of the clock.
pub mod Fields
use ipscry.Common.{ℕ, suc, ◌||◌, none, some, List, [], ◌∷◌, ◌==◌, if◌then◌else◌, length, Bytes}
use ipscry.Common.Text.{codes, contains}
use ipscry.Common.Int.{ℤ, pos}
use ipscry.Common.Maps.{put}
use ipscry.Hosts.{HostResult, PortResult}
use ipscry.Webhook.{
  MonitorCall, start, port_progress, port_open, enrich_start, host_ready, http_refresh, finish,
  close, progress_percent,
}

-- The values in an event; `tenths 8` is 0.8.
pub data FieldValue : Type 0 where
  text : Bytes → FieldValue
  texts : List Bytes → FieldValue
  number : ℤ → FieldValue
  tenths : ℕ → FieldValue

-- `map[string]any`
abbrev pub Fields : Type 0
Fields = List (Bytes × FieldValue)

-- `for key, value := range more { fields[key] = value }`, or a map literal
unfoldable pub put_all : Fields → Fields → Fields
put_all [] fields = fields
put_all ((key, value) ∷ more) fields = put_all more (put key value fields)

unfoldable pub emit : ℕ → Bytes → Fields → Fields
emit now event fields =
    put (codes "timestamp") (number (pos now)) (put (codes "event") (text event) fields)

-- The loop over the three names
unfoldable pub named : List Bytes → List Bytes
named [] = []
named (name ∷ names) = let rest = named names in if length name == 0 then rest else name ∷ rest

unfoldable pub stream_host_fields : HostResult → Fields
unfolding named
stream_host_fields host =
    (codes "ip", text host.ip)
    ∷ (codes "mac", text host.mac)
    ∷ (codes "vendor", text host.mac_vendor)
    ∷ (codes "hostname", text host.hostname)
    ∷ (codes "hostnames", texts (named (host.hostname ∷ host.mdns_name ∷ host.llmnr_name ∷ [])))
    ∷ (codes "confidence", tenths 8)
    ∷ (codes "service_hint", text host.guess)
    ∷ []

module _ (lower : Bytes → Bytes) where
  unfoldable pub stream_protocol : PortResult → Bytes
  stream_protocol port =
      let service = lower port.service in
      if contains (codes "https") service || (port.port == 443 || port.port == 8443)
      then codes "https"
      else if contains (codes "http") service
          || (port.port == 80 || (port.port == 631 || port.port == 8080))
      then codes "http"
      else codes "tcp"

  unfoldable pub stream_port_fields : Bytes → PortResult → Fields
  unfolding stream_protocol
  stream_port_fields ip port =
      (codes "ip", text ip)
      ∷ (codes "port", number (pos port.port))
      ∷ (codes "protocol", text (stream_protocol port))
      ∷ (codes "service_hint", text port.service)
      ∷ (codes "http_status", text port.http_status)
      ∷ (codes "http_server", text port.http_server)
      ∷ (codes "title", text port.http_title)
      ∷ (codes "redirect", text port.http_redirect)
      ∷ (codes "tls_subject", text port.tls_subject)
      ∷ []

  -- An event for a port of a host
  unfoldable pub port_update : ℕ → HostResult → PortResult → Fields
  unfolding stream_port_fields stream_host_fields put_all emit
  port_update now host port =
      emit now (codes "target_updated")
        (put_all (stream_port_fields host.ip port) (stream_host_fields host))

  -- HostReady, with the host's ports; the clock is read for each event.
  unfoldable pub port_updates : (ℕ → ℕ) → HostResult → List PortResult → List Fields
  unfolding port_update
  port_updates now host [] = []
  port_updates now host (port ∷ ports) =
      port_update (now 0) host port ∷ port_updates (λ i. now (suc i)) host ports

  unfoldable pub stream_updates : (ℕ → ℕ) → HostResult → List PortResult → List Fields
  unfolding port_updates
  stream_updates now host [] = emit (now 0) (codes "target_updated") (stream_host_fields host) ∷ []
  stream_updates now host (port ∷ ports) = port_updates now host (port ∷ ports)

  unfoldable pub stream_ready : (ℕ → ℕ) → HostResult → List Fields
  unfolding stream_updates
  stream_ready now host = stream_updates now host host.open_ports

  -- The method PortFound, which is not one of `scanMonitor`
  unfoldable pub port_found : ℕ → Bytes → ℤ → PortResult → Fields
  unfolding stream_port_fields emit
  port_found now ip latency port =
      emit now (codes "target_found")
        (put (codes "latency_ms") (number latency) (stream_port_fields ip port))

  -- What a call writes
  unfoldable pub stream_call : Bytes → (ℕ → ℕ) → MonitorCall → List Fields
  unfolding stream_ready emit progress_percent
  stream_call target now (start subnet total) =
      emit (now 0) (codes "scan_started")
        ((codes "subnet", text subnet) ∷ (codes "total_ports", number (pos total)) ∷ [])
      ∷ []
  stream_call target now (port_progress scanned total) =
      emit (now 0) (codes "scan_progress") (
        (codes "phase", text (codes "scanning"))
        ∷ (codes "scanned_ports", number (pos scanned))
        ∷ (codes "total_ports", number (pos total))
        ∷ (codes "percent", number (pos (progress_percent scanned total)))
        ∷ [])
      ∷ []
  stream_call target now (port_open ip latency) = []
  stream_call target now (enrich_start ips) =
      emit (now 0) (codes "scan_progress") (
        (codes "phase", text (codes "enriching"))
        ∷ (codes "ready_hosts", number (pos 0))
        ∷ (codes "total_hosts", number (pos (length ips)))
        ∷ [])
      ∷ []
  stream_call target now (host_ready host) = stream_ready now host
  stream_call target now (http_refresh updated) = stream_ready now updated
  stream_call target now (finish hosts elapsed error) =
      let fields =
        (codes "subnet", text target)
        ∷ (codes "host_count", number (pos (length hosts)))
        ∷ (codes "elapsed_ms", number (pos elapsed))
        ∷ [] in
      elim error [
        | none ↦ emit (now 0) (codes "scan_completed") fields ∷ []
        | some e ↦ emit (now 0) (codes "scan_failed") (put (codes "error") (text e) fields) ∷ []
      ]
  stream_call target now close = []

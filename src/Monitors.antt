-- ===== src/Monitors.antt =====
-- The monitors of a scan together: multiScanMonitor of main.go, and how scanNetwork reports an open port.
-- The terminal UI does not run when events go to a webhook or to the stream, so a combined monitor
-- holds those two.
pub mod Found
use ipscry.Common.{ℕ, suc, ◌+◌, List, [], ◌∷◌, ◌++◌, map, Bytes}
use ipscry.Common.Int.{ℤ}
use ipscry.Hosts.{PortResult}
use ipscry.Webhook.{
  Clock, MonitorCall, port_open, ScanProgressEvent, WebhookProgressMonitor, webhook_call,
}
use ipscry.Stream.{Fields, stream_call, port_found}

-- A monitor that sends events, with its state
pub data ScanMonitor : Type 0 where
  webhook : WebhookProgressMonitor → ScanMonitor
  stream : Bytes → ScanMonitor

-- What goes out
pub data Sent : Type 0 where
  posted : ScanProgressEvent → Sent
  written : Fields → Sent

-- `monitor.(interface{ PortFound(portScanResult) })`: only the stream has the method, and so a
-- combined monitor does not.
pub data AnyMonitor : Type 0 where
  single : ScanMonitor → AnyMonitor
  multi : List ScanMonitor → AnyMonitor

-- What the report of a port reads of the clock: in PortOpen, each monitor for itself, and in PortFound
pub record Readings : Type 0 where
  pub opened : ℕ → Clock
  pub found : ℕ

module _ (lower : Bytes → Bytes) where
  -- `monitor.F(…)`
  unfoldable pub call_one : Clock → MonitorCall → ScanMonitor → ScanMonitor × List Sent
  unfolding webhook_call stream_call
  call_one now call (webhook m) =
      let (after, events) = webhook_call now call m in (webhook after, map posted events)
  call_one now call (stream target) =
      (stream target, map written (stream_call lower target now.stamped call))

  -- `multiScanMonitor`: each method calls the monitors in turn, and each reads the clock.
  unfoldable pub call_all :
      (ℕ → Clock) → MonitorCall → List ScanMonitor → List ScanMonitor × List Sent
  unfolding call_one
  call_all now call [] = ([], [])
  call_all now call (m ∷ ms) =
      let (m', sent) = call_one (now 0) call m in
      let (ms', more) = call_all (λ i. now (suc i)) call ms in (m' ∷ ms', sent ++ more)

  unfoldable pub call_any : (ℕ → Clock) → MonitorCall → AnyMonitor → AnyMonitor × List Sent
  unfolding call_one call_all
  call_any now call (single m) = let (m', sent) = call_one (now 0) call m in (single m', sent)
  call_any now call (multi ms) = let (ms', sent) = call_all now call ms in (multi ms', sent)

  unfoldable pub call_port_found : ℕ → Bytes → ℤ → PortResult → AnyMonitor → List Sent
  unfolding port_found
  call_port_found now ip latency port (single (stream target)) =
      written (port_found lower now ip latency port) ∷ []
  call_port_found now ip latency port _ = []

  -- What scanNetwork does with a result
  unfoldable pub report_open :
      Readings → Bytes → ℤ → PortResult → AnyMonitor → AnyMonitor × List Sent
  unfolding call_any call_port_found
  report_open now ip latency port monitor =
      let (after, sent) = call_any now.opened (port_open ip latency) monitor in
      (after, sent ++ call_port_found now.found ip latency port after)

  -- The same for all results, in the order of their arrival
  unfoldable pub report_all : List (Readings × Bytes × ℤ × PortResult) → AnyMonitor → List Sent
  unfolding report_open
  report_all [] monitor = []
  report_all ((now, ip, latency, port) ∷ results) monitor =
      let (after, sent) = report_open now ip latency port monitor in
      sent ++ report_all results after

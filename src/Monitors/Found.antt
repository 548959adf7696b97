-- ===== src/Monitors/Found.antt =====
-- Which open ports reach the stream.
use ipscry.Common.{ℕ, suc, ◌≡◌, refl, ap, ◌∙◌, List, [], ◌∷◌, ◌++◌, map, append-nil, Bytes}
use ipscry.Common.Int.{ℤ}
use ipscry.Hosts.{PortResult}
use ipscry.Webhook.{Clock, port_open, webhook_call, post_open, ScanProgressEvent}
use ipscry.Stream.{Fields, stream_call, port_found}
use ipscry.Monitors.{
  Readings, ScanMonitor, webhook, stream, Sent, posted, written, call_one, call_all, single, multi,
  call_any, call_port_found, report_open, report_all,
}

-- The lines among what was sent
abbrev pub lines : List Sent → List Fields
lines [] = []
lines (posted e ∷ sent) = lines sent
lines (written l ∷ sent) = l ∷ lines sent

lines-append : (a b : List Sent) → lines (a ++ b) ≡ lines a ++ lines b
lines-append [] b = refl
lines-append (posted e ∷ a) b = lines-append a b
lines-append (written l ∷ a) b = ap (λ r. l ∷ r) (lines-append a b)

lines-posted : (events : List ScanProgressEvent) → lines (map posted events) ≡ []
lines-posted [] = refl
lines-posted (e ∷ events) = lines-posted events

abbrev pub OpenPort : Type 0
OpenPort = Readings × Bytes × ℤ × PortResult

-- The line of a port that was found
abbrev pub found_line : (Bytes → Bytes) → OpenPort → Fields
found_line lower (now, ip, latency, port) = port_found lower now.found ip latency port

open_one-lines :
    (lower : Bytes → Bytes) (now : Clock) (ip : Bytes) (latency : ℤ) (m : ScanMonitor)
    → lines ((call_one lower now (port_open ip latency) m).1) ≡ []
unfolding call_one stream_call webhook_call
open_one-lines lower now ip latency (webhook m) = lines-posted ((post_open now ip m).1)
open_one-lines lower now ip latency (stream target) = refl

open_all-lines :
    (lower : Bytes → Bytes) (now : ℕ → Clock) (ip : Bytes) (latency : ℤ) (ms : List ScanMonitor)
    → lines ((call_all lower now (port_open ip latency) ms).1) ≡ []
unfolding call_all
open_all-lines lower now ip latency [] = refl
open_all-lines lower now ip latency (m ∷ ms) =
    lines-append ((call_one lower (now 0) (port_open ip latency) m).1)
      ((call_all lower (λ i. now (suc i)) (port_open ip latency) ms).1)
    ∙ rw (open_one-lines lower (now 0) ip latency m)
        (open_all-lines lower (λ i. now (suc i)) ip latency ms)

multi-lines :
    (lower : Bytes → Bytes) (results : List OpenPort) (ms : List ScanMonitor)
    → lines (report_all lower results (multi ms)) ≡ []
unfolding report_all report_open call_any call_port_found
multi-lines lower [] ms = refl
multi-lines lower ((now, ip, latency, port) ∷ results) ms =
    let (after, sent) = call_all lower now.opened (port_open ip latency) ms in
    let rest = report_all lower results (multi after) in
    lines-append (sent ++ []) rest
    ∙ ap (λ r. r ++ lines rest)
        (lines-append sent []
          ∙ append-nil (lines sent)
          ∙ open_all-lines lower now.opened ip latency ms)
    ∙ multi-lines lower results after

-- With the stream alone each open port that scanNetwork reports is written, in the order of arrival; with
-- a combined monitor, whether the stream is one of its parts or not, none is.
pub report_all-lines :
    (lower : Bytes → Bytes) (results : List OpenPort) (target : Bytes) (ms : List ScanMonitor)
    → (lines (report_all lower results (single (stream target))) ≡ map (found_line lower) results)
      × (lines (report_all lower results (multi ms)) ≡ [])
unfolding report_all report_open call_any call_port_found call_one stream_call
report_all-lines lower [] target ms = (refl, refl)
report_all-lines lower ((now, ip, latency, port) ∷ results) target ms = (
  ap (λ r. port_found lower now.found ip latency port ∷ r)
      ((report_all-lines lower results target ms).0),
  multi-lines lower ((now, ip, latency, port) ∷ results) ms,
)

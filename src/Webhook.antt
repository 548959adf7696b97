-- ===== src/Webhook.antt =====
-- The progress webhook of main.go: webhookProgressMonitor. What a call reads of the clock is an argument,
-- in nanoseconds: PortProgress reads it under the mutex, and `post` again behind it. `postProgressWebhook`
-- sends what is posted, and the message for people, which repeats the fields beside it, is left out. The
-- calls hold the mutex while they change the state, so the changes follow one another; what is posted is
-- listed in the order of the changes, and can be sent in another.
pub mod Discovered
pub mod Throttle
pub mod Ready
use ipscry.Common.{
  ℕ, ◌+◌, ◌-◌, ◌*◌, ◌/◌, ◌%◌, Bool, false, ◌&&◌, ◌||◌, Option, none, some, List, [], ◌∷◌, ◌++◌, ltb,
  ◌==◌, if◌then◌else◌, length, Bytes,
}
use ipscry.Common.Text.{text_eq}
use ipscry.Common.Int.{ℤ}
use ipscry.Hosts.{HostResult}

-- `progressPercent`
unfoldable pub progress_percent : ℕ → ℕ → ℕ
progress_percent scanned total =
    if total == 0 then 0 else if ltb 100 (scanned * 100 / total) then 100 else scanned * 100 / total

-- The methods of `scanMonitor`; what they are given and no monitor here reads is left out. The error of
-- the context comes with Finish.
pub data MonitorCall : Type 0 where
  start : Bytes → ℕ → MonitorCall
  port_progress : ℕ → ℕ → MonitorCall
  port_open : Bytes → ℤ → MonitorCall
  enrich_start : List Bytes → MonitorCall
  host_ready http_refresh : HostResult → MonitorCall
  finish : List HostResult → ℕ → Option Bytes → MonitorCall
  close : MonitorCall

-- The names of the events and of the phases
pub data EventName : Type 0 where
  scan_started scan_progress host_discovered enrichment_started enrichment_progress : EventName
  http_probe_complete scan_completed scan_cancelled : EventName

pub data EventPhase : Type 0 where
  scanning enriching http_probe ended : EventPhase

pub record ScanProgressEvent : Type 0 where
  pub event : EventName
  pub phase : EventPhase
  pub target : Bytes
  pub timestamp : ℕ
  pub scanned_ports : ℕ
  pub total_ports : ℕ
  pub percent : ℕ
  pub open_hosts : ℕ
  pub ready_hosts : ℕ
  pub total_hosts : ℕ
  pub ip : Bytes
  pub port_count : ℕ
  pub elapsed_ms : ℕ

pub record WebhookProgressMonitor : Type 0 where
  pub target : Bytes
  pub last_post : ℕ
  pub open_hosts : List Bytes
  pub ready_hosts : ℕ
  pub total_hosts : ℕ

-- `time.Time{}` is 0.
unfoldable pub new_webhook_progress_monitor : Bytes → WebhookProgressMonitor
new_webhook_progress_monitor target = record {
  target = target;
  last_post = 0;
  open_hosts = [];
  ready_hosts = 0;
  total_hosts = 0;
}

-- What a call reads of the clock: what PortProgress compares with `lastPost`, and the stamps of the events
-- that go out, of which the webhook has one at most
pub record Clock : Type 0 where
  pub checked : ℕ
  pub stamped : ℕ → ℕ

-- A `scanProgressEvent` with the rest at its zero, as `post` stamps it
unfoldable pub post : WebhookProgressMonitor → Clock → EventName → EventPhase → ScanProgressEvent
post m now event phase = record {
  event = event;
  phase = phase;
  target = m.target;
  timestamp = now.stamped 0;
  scanned_ports = 0;
  total_ports = 0;
  percent = 0;
  open_hosts = 0;
  ready_hosts = 0;
  total_hosts = 0;
  ip = [];
  port_count = 0;
  elapsed_ms = 0;
}

-- The state behind a call and what it posted
abbrev pub Posted : Type 0
Posted = WebhookProgressMonitor × List ScanProgressEvent

-- `5 * time.Second`
abbrev pub post_interval : ℕ
post_interval = 5000000000

unfoldable pub post_progress : Clock → ℕ → ℕ → WebhookProgressMonitor → Posted
unfolding post progress_percent
post_progress now scanned total m =
    if ltb scanned total && ltb (now.checked - m.last_post) post_interval then (m, []) else (
      record m { last_post = now.checked },
      record (post m now scan_progress scanning) {
        scanned_ports = scanned;
        total_ports = total;
        percent = progress_percent scanned total;
        open_hosts = length m.open_hosts;
      }
          ∷ [],
    )

unfoldable pub is_open : Bytes → List Bytes → Bool
is_open ip [] = false
is_open ip (x ∷ xs) = text_eq x ip || is_open ip xs

unfoldable pub post_open : Clock → Bytes → WebhookProgressMonitor → Posted
unfolding post is_open
post_open now ip m = if is_open ip m.open_hosts then (m, []) else (
  record m { open_hosts = ip ∷ m.open_hosts },
  record (post m now host_discovered scanning) { ip = ip; open_hosts = length m.open_hosts + 1 }
      ∷ [],
)

-- `readyHosts == totalHosts || readyHosts == 1 || readyHosts%5 == 0`
unfoldable pub should_post : ℕ → ℕ → Bool
should_post ready total = ready == total || (ready == 1 || ready % 5 == 0)

unfoldable pub post_ready : Clock → HostResult → WebhookProgressMonitor → Posted
unfolding post should_post
post_ready now host m =
    let ready = m.ready_hosts + 1 in
    (
      record m { ready_hosts = ready },
      if should_post ready m.total_hosts
          then record (post m now enrichment_progress enriching) {
            ip = host.ip;
            ready_hosts = ready;
            total_hosts = m.total_hosts;
          }
            ∷ []
          else [],
    )

-- The event that Finish posts
unfoldable pub finish_name : Option Bytes → EventName
finish_name none = scan_completed
finish_name (some error) = scan_cancelled

unfoldable pub webhook_call : Clock → MonitorCall → WebhookProgressMonitor → Posted
unfolding post post_progress post_open post_ready finish_name
webhook_call now (start target total) m = (
  m,
  record (post m now scan_started scanning) {
    target = if length target == 0 then m.target else target;
    total_ports = total;
  }
      ∷ [],
)
webhook_call now (port_progress scanned total) m = post_progress now scanned total m
webhook_call now (port_open ip latency) m = post_open now ip m
webhook_call now (enrich_start ips) m = (
  record m { total_hosts = length ips; ready_hosts = 0 },
  record (post m now enrichment_started enriching) { total_hosts = length ips } ∷ [],
)
webhook_call now (host_ready host) m = post_ready now host m
webhook_call now (http_refresh updated) m = (
  m,
  record (post m now http_probe_complete http_probe) {
    ip = updated.ip;
    port_count = length updated.open_ports;
  }
      ∷ [],
)
webhook_call now (finish hosts elapsed error) m = (
  m,
  record (post m now (finish_name error) ended) { open_hosts = length hosts; elapsed_ms = elapsed }
      ∷ [],
)
webhook_call now close m = (m, [])

-- What a series of calls posts, each call with what it reads of the clock
unfoldable pub webhook_posts :
    List (Clock × MonitorCall) → WebhookProgressMonitor → List ScanProgressEvent
unfolding webhook_call
webhook_posts [] m = []
webhook_posts ((now, call) ∷ calls) m =
    let (after, events) = webhook_call now call m in events ++ webhook_posts calls after

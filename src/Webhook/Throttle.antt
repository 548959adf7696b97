-- ===== src/Webhook/Throttle.antt =====
-- How often webhookProgressMonitor posts the progress of the scan.
use ipscry.Common.{
  ℕ, ◌+◌, ◌-◌, ◌≤◌, ◌<◌, inl, inr, ◌&&◌, none, some, List, [], ◌∷◌, ◌++◌, map, arith, ltb,
  Bool-cases, length,
}
use ipscry.Webhook.{
  Clock, MonitorCall, start, port_progress, port_open, enrich_start, host_ready, http_refresh,
  finish, close, scan_progress, ScanProgressEvent, WebhookProgressMonitor, post_interval,
  post_progress, is_open, post_open, should_post, post_ready, finish_name, webhook_call,
}

-- The events that are posted, each with the first reading of the clock in its call
abbrev pub timed_posts :
    List (Clock × MonitorCall) → WebhookProgressMonitor → List (ℕ × ScanProgressEvent)
timed_posts [] m = []
timed_posts ((now, call) ∷ calls) m =
    let (after, events) = webhook_call now call m in
    map (λ e. (now.checked, e)) events ++ timed_posts calls after

-- A progress event of an unfinished scan comes an interval behind the one before, by these readings.
abbrev pub IsSpaced : ℕ → List (ℕ × ScanProgressEvent) → Type 0
IsSpaced last [] = Unit
IsSpaced last ((read, e) ∷ events) = elim e.event [
  | scan_progress ↦
      (e.scanned_ports < e.total_ports → last + post_interval ≤ read) × IsSpaced read events
  | _ ↦ IsSpaced last events
]

-- In any series of calls, a call of PortProgress that posts an event, on a scan that is not through, has read
-- the clock at least five seconds behind what the call of PortProgress that posted before it had read.
pub timed_posts-IsSpaced :
    (calls : List (Clock × MonitorCall)) (m : WebhookProgressMonitor)
    → IsSpaced m.last_post (timed_posts calls m)
unfolding webhook_call post_progress post_open post_ready finish_name
timed_posts-IsSpaced [] m = tt
timed_posts-IsSpaced ((now, start target total) ∷ calls) m = timed_posts-IsSpaced calls m
timed_posts-IsSpaced ((now, port_progress scanned total) ∷ calls) m =
    elim (Bool-cases (ltb scanned total && ltb (now.checked - m.last_post) post_interval)) [
      | inl e ↦ rw (e) (timed_posts-IsSpaced calls m)
      | inr e ↦
          let spaced : scanned < total → m.last_post + post_interval ≤ now.checked =
            λ u. ground arith in
          rw (e) (spaced, timed_posts-IsSpaced calls (record m { last_post = now.checked }))
    ]
timed_posts-IsSpaced ((now, port_open ip latency) ∷ calls) m =
    elim (Bool-cases (is_open ip m.open_hosts)) [
      | inl e ↦ rw (e) (timed_posts-IsSpaced calls m)
      | inr e ↦ rw (e) (timed_posts-IsSpaced calls (record m { open_hosts = ip ∷ m.open_hosts }))
    ]
timed_posts-IsSpaced ((now, enrich_start ips) ∷ calls) m =
    timed_posts-IsSpaced calls (record m { total_hosts = length ips; ready_hosts = 0 })
timed_posts-IsSpaced ((now, host_ready host) ∷ calls) m =
    let after = timed_posts-IsSpaced calls (record m { ready_hosts = m.ready_hosts + 1 }) in
    elim (Bool-cases (should_post (m.ready_hosts + 1) m.total_hosts)) [
      | inl e ↦ rw (e) after
      | inr e ↦ rw (e) after
    ]
timed_posts-IsSpaced ((now, http_refresh host) ∷ calls) m = timed_posts-IsSpaced calls m
timed_posts-IsSpaced ((now, finish hosts elapsed none) ∷ calls) m = timed_posts-IsSpaced calls m
timed_posts-IsSpaced ((now, finish hosts elapsed (some e)) ∷ calls) m = timed_posts-IsSpaced calls m
timed_posts-IsSpaced ((now, close) ∷ calls) m = timed_posts-IsSpaced calls m

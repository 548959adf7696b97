-- ===== src/Webhook/Discovered.antt =====
-- The hosts that webhookProgressMonitor announces.
use ipscry.Common.{
  ℕ, ◌+◌, ◌-◌, ◌≡◌, refl, ap, inl, inr, ◌&&◌, none, some, List, [], ◌∷◌, ◌++◌, ltb, if◌then◌else◌,
  Bool-cases, length, Bytes,
}
use ipscry.Webhook.{
  Clock, MonitorCall, start, port_progress, port_open, enrich_start, host_ready, http_refresh,
  finish, close, host_discovered, ScanProgressEvent, WebhookProgressMonitor, post_interval,
  post_progress, is_open, post_open, should_post, post_ready, finish_name, webhook_call,
  webhook_posts,
}

-- An announced address with the number of responsive hosts that its event gives.
abbrev pub Announced : Type 0
Announced = Bytes × ℕ

abbrev announced : ScanProgressEvent → List Announced
announced e = elim e.event [ host_discovered ↦ (e.ip, e.open_hosts) ∷ [] | _ ↦ [] ]

abbrev pub announcements : List ScanProgressEvent → List Announced
announcements [] = []
announcements (e ∷ events) = announced e ++ announcements events

-- The responsive addresses that the scan reports, in their order
abbrev reported : MonitorCall → List Bytes
reported (port_open ip latency) = ip ∷ []
reported _ = []

abbrev pub all_reported : List (Clock × MonitorCall) → List Bytes
all_reported [] = []
all_reported ((now, call) ∷ calls) = reported call ++ all_reported calls

-- Each address at its first place, numbered on from those seen
abbrev pub first_seen : List Bytes → List Bytes → List Announced
first_seen seen [] = []
first_seen seen (ip ∷ ips) =
    let fresh = first_seen (ip ∷ seen) ips in
    if is_open ip seen then first_seen seen ips else (ip, length seen + 1) ∷ fresh

-- In any series of calls, each responsive address is announced once, when it is first reported, with the
-- number of addresses seen up to then.
pub announcements-webhook_posts :
    (calls : List (Clock × MonitorCall)) (m : WebhookProgressMonitor)
    → announcements (webhook_posts calls m) ≡ first_seen m.open_hosts (all_reported calls)
unfolding webhook_posts webhook_call post_progress post_open post_ready finish_name
announcements-webhook_posts [] m = refl
announcements-webhook_posts ((now, start target total) ∷ calls) m =
    announcements-webhook_posts calls m
announcements-webhook_posts ((now, port_progress scanned total) ∷ calls) m =
    elim (Bool-cases (ltb scanned total && ltb (now.checked - m.last_post) post_interval)) [
      | inl e ↦ rw (e) (announcements-webhook_posts calls m)
      | inr e ↦ rw (e) (announcements-webhook_posts calls (record m { last_post = now.checked }))
    ]
announcements-webhook_posts ((now, port_open ip latency) ∷ calls) m =
    elim (Bool-cases (is_open ip m.open_hosts)) [
      | inl e ↦ rw (e) (announcements-webhook_posts calls m)
      | inr e ↦ rw (e) (
          ap (λ r. (ip, length m.open_hosts + 1) ∷ r)
            (announcements-webhook_posts calls (record m { open_hosts = ip ∷ m.open_hosts })))
    ]
announcements-webhook_posts ((now, enrich_start ips) ∷ calls) m =
    announcements-webhook_posts calls (record m { total_hosts = length ips; ready_hosts = 0 })
announcements-webhook_posts ((now, host_ready host) ∷ calls) m =
    let after = announcements-webhook_posts calls (record m { ready_hosts = m.ready_hosts + 1 }) in
    elim (Bool-cases (should_post (m.ready_hosts + 1) m.total_hosts)) [
      | inl e ↦ rw (e) after
      | inr e ↦ rw (e) after
    ]
announcements-webhook_posts ((now, http_refresh host) ∷ calls) m =
    announcements-webhook_posts calls m
announcements-webhook_posts ((now, finish hosts elapsed none) ∷ calls) m =
    announcements-webhook_posts calls m
announcements-webhook_posts ((now, finish hosts elapsed (some e)) ∷ calls) m =
    announcements-webhook_posts calls m
announcements-webhook_posts ((now, close) ∷ calls) m = announcements-webhook_posts calls m

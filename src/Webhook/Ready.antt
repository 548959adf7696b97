-- ===== src/Webhook/Ready.antt =====
-- The end of the enrichment in the events of webhookProgressMonitor.
use ipscry.Common.{
  ℕ, suc, ◌+◌, ◌-◌, ◌%◌, ◌<◌, ◌≡◌, refl, inl, inr, Bool, true, false, ◌&&◌, ◌||◌, none, some, List,
  [], ◌∷◌, arith, ltb, ◌==◌, Bool-cases, length, Bytes,
}
use ipscry.Webhook.{
  Clock, MonitorCall, start, port_progress, port_open, enrich_start, host_ready, http_refresh,
  finish, close, enrichment_progress, ScanProgressEvent, WebhookProgressMonitor, post_interval,
  post_progress, is_open, post_open, should_post, post_ready, finish_name, webhook_call,
  webhook_posts,
}

-- The event says that all of the hosts are enriched.
abbrev says_all : ℕ → ScanProgressEvent → Bool
says_all n e = elim e.event [
  | enrichment_progress ↦ e.ready_hosts == n && e.total_hosts == n
  | _ ↦ false
]

abbrev pub reports_all : ℕ → List ScanProgressEvent → Bool
reports_all n [] = false
reports_all n (e ∷ events) = says_all n e || reports_all n events

-- How many hosts get ready in the calls
abbrev pub ready_calls : List (Clock × MonitorCall) → ℕ
ready_calls [] = 0
ready_calls ((now, host_ready host) ∷ calls) = suc (ready_calls calls)
ready_calls ((now, call) ∷ calls) = ready_calls calls

-- The calls belong to one enrichment.
abbrev pub IsOneRound : List (Clock × MonitorCall) → Type 0
IsOneRound [] = Unit
IsOneRound ((now, enrich_start ips) ∷ calls) = ⊥
IsOneRound ((now, call) ∷ calls) = IsOneRound calls

webhook_posts-all :
    (calls : List (Clock × MonitorCall)) (m : WebhookProgressMonitor)
    → IsOneRound calls
    → 0 < ready_calls calls
    → m.ready_hosts + ready_calls calls ≡ m.total_hosts
    → reports_all m.total_hosts (webhook_posts calls m) ≡ true
unfolding webhook_posts webhook_call post_progress post_open post_ready finish_name should_post
webhook_posts-all [] m one some_ sum = ground arith
webhook_posts-all ((now, start target total) ∷ calls) m one some_ sum =
    webhook_posts-all calls m one some_ sum
webhook_posts-all ((now, port_progress scanned total) ∷ calls) m one some_ sum =
    elim (Bool-cases (ltb scanned total && ltb (now.checked - m.last_post) post_interval)) [
      | inl e ↦ rw (e) (webhook_posts-all calls m one some_ sum)
      | inr e ↦
          rw (e) (webhook_posts-all calls (record m { last_post = now.checked }) one some_ sum)
    ]
webhook_posts-all ((now, port_open ip latency) ∷ calls) m one some_ sum =
    elim (Bool-cases (is_open ip m.open_hosts)) [
      | inl e ↦ rw (e) (webhook_posts-all calls m one some_ sum)
      | inr e ↦
          rw (e)
            (webhook_posts-all calls (record m { open_hosts = ip ∷ m.open_hosts }) one some_ sum)
    ]
webhook_posts-all ((now, enrich_start ips) ∷ calls) m one some_ sum = absurd one
webhook_posts-all ((now, host_ready host) ∷ calls) m one some_ sum =
    let next = record m { ready_hosts = m.ready_hosts + 1 } in
    elim (Bool-cases (m.ready_hosts + 1 == m.total_hosts)) [
      | inl e ↦
          let same : (m.total_hosts == m.total_hosts) ≡ true = ground arith in
          rw (e) (rw (e, same) refl)
      | inr e ↦
          let after =
            webhook_posts-all calls (record m { ready_hosts = m.ready_hosts + 1 }) one
              (ground arith) (omega arith) in
          elim (Bool-cases (m.ready_hosts + 1 == 1 || (m.ready_hosts + 1) % 5 == 0)) [
            | inl s ↦ rw (e, s) (rw (e) after)
            | inr s ↦ rw (e, s) after
          ]
    ]
webhook_posts-all ((now, http_refresh host) ∷ calls) m one some_ sum =
    webhook_posts-all calls m one some_ sum
webhook_posts-all ((now, finish hosts elapsed none) ∷ calls) m one some_ sum =
    webhook_posts-all calls m one some_ sum
webhook_posts-all ((now, finish hosts elapsed (some e)) ∷ calls) m one some_ sum =
    webhook_posts-all calls m one some_ sum
webhook_posts-all ((now, close) ∷ calls) m one some_ sum = webhook_posts-all calls m one some_ sum

-- After EnrichStart with at least one host, as many HostReady calls as there are hosts post an event that
-- says that all are ready, whatever other calls come between, if none of them is another EnrichStart.
pub reports_all-webhook_posts :
    (now : Clock) (ips : List Bytes) (calls : List (Clock × MonitorCall))
    (m : WebhookProgressMonitor)
    → IsOneRound calls
    → 0 < length ips
    → ready_calls calls ≡ length ips
    → reports_all (length ips) (webhook_posts ((now, enrich_start ips) ∷ calls) m) ≡ true
unfolding webhook_posts webhook_call
reports_all-webhook_posts now ips calls m one some_ all =
    webhook_posts-all calls (record m { total_hosts = length ips; ready_hosts = 0 }) one
      (omega arith) (omega arith)

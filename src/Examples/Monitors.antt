-- ===== src/Examples/Monitors.antt =====
-- The theorems on the monitors and on the SMB negotiation at concrete inputs, and runs of their
-- definitions.
use ipscry.Common.{
  ℕ, suc, ◌+◌, ◌*◌, ◌≡◌, refl, true, ◌||◌, List, [], ◌∷◌, ◌++◌, map, arith, ltb, ◌==◌,
  if◌then◌else◌, length, drop, done, Ends, Bytes,
}
use ipscry.Common.Text.{codes, text_eq, to_lower}
use ipscry.Common.Trim.{trim_space}
use ipscry.Common.Int.{pos}
use ipscry.Hosts.{HostResult, PortResult, blank_host}
use ipscry.Webhook.{
  Clock, MonitorCall, port_progress, port_open, enrich_start, host_ready, WebhookProgressMonitor,
  new_webhook_progress_monitor, webhook_posts,
}
use ipscry.Webhook.Discovered.{announcements, all_reported, first_seen, announcements-webhook_posts}
use ipscry.Webhook.Throttle.{IsSpaced, timed_posts, timed_posts-IsSpaced}
use ipscry.Webhook.Ready.{reports_all, reports_all-webhook_posts}
use ipscry.Monitors.{webhook, stream, single, multi, report_all}
use ipscry.Monitors.Found.{OpenPort, lines, found_line, report_all-lines}
use ipscry.Dns.Bounds.{Anything}
use ipscry.Common.{inl, inr}
use ipscry.Smb.{
  utf8_string, message, invalid_length, read_smb2, frame_direct_tcp, ntlm_type1,
  build_smb2_negotiate, build_smb2_session_setup, utf16_le, challenge_name, scan_attributes,
  parse_ntlm_challenge,
}
use ipscry.Smb.Frame.{read_smb2-frame_direct_tcp}
use ipscry.Smb.Bounds.{parse_ntlm_challenge-Ends}
use ipscry.Smb.Names.{
  Attribute, encode_attributes, ending, last_text, preferred, scan_attributes-last,
}
use ipscry.Smb.Unicode.{utf16_text, utf16_le-utf16_text}
use ipscry.Sanitize.{sanitize_one_line}

abbrev second : ℕ
second = 1000000000

-- A call at a time, with its events a millisecond later
abbrev at_time : ℕ → Clock
at_time n = record { checked = n; stamped = λ i. n + 1000000 }

abbrev calls : List (Clock × MonitorCall)
calls =
    (at_time (9 * second), port_progress 1 10)
    ∷ (at_time (10 * second), port_open (codes "10.0.0.7") (pos 3))
    ∷ (at_time (11 * second), port_open (codes "10.0.0.7") (pos 2))
    ∷ (at_time (12 * second), port_progress 5 10)
    ∷ (at_time (13 * second), port_open (codes "10.0.0.9") (pos 1))
    ∷ []

abbrev monitor : WebhookProgressMonitor
monitor = new_webhook_progress_monitor (codes "10.0.0.0/24")

-- Two addresses are announced, and the second progress event comes too early.
webhook_posts-runs :
    (announcements (webhook_posts calls monitor)
      ≡ (codes "10.0.0.7", 1) ∷ (codes "10.0.0.9", 2) ∷ [])
    × (length (webhook_posts calls monitor) ≡ 3)
unfolding webhook_posts text_eq new_webhook_progress_monitor
webhook_posts-runs = (refl, refl)

announcements-webhook_posts_example :
    announcements (webhook_posts calls monitor) ≡ first_seen monitor.open_hosts (all_reported calls)
announcements-webhook_posts_example = announcements-webhook_posts calls monitor

timed_posts-IsSpaced_example : IsSpaced monitor.last_post (timed_posts calls monitor)
timed_posts-IsSpaced_example = timed_posts-IsSpaced calls monitor

abbrev a_host : HostResult
a_host = blank_host (codes "10.0.0.7") (pos 3) []

abbrev a_port : ℕ → PortResult
a_port n = record {
  port = n;
  service = codes "ssh";
  vendors = [];
  banner = [];
  http_status = [];
  http_server = [];
  http_title = [];
  http_redirect = [];
  tls_subject = [];
  probe_error = [];
}

abbrev ips : List Bytes
ips = codes "10.0.0.7" ∷ codes "10.0.0.9" ∷ []

abbrev ready : List (Clock × MonitorCall)
ready =
    (at_time (21 * second), host_ready a_host)
    ∷ (at_time (22 * second), port_progress 10 10)
    ∷ (at_time (23 * second), host_ready a_host)
    ∷ []

reports_all-webhook_posts_example :
    reports_all
      (length ips)
      (webhook_posts ((at_time (20 * second), enrich_start ips) ∷ ready) monitor)
    ≡ true
reports_all-webhook_posts_example =
    reports_all-webhook_posts (at_time (20 * second)) ips ready monitor tt (omega arith) refl

abbrev results : List OpenPort
results = (record { opened = λ i. at_time 4; found = 5 }, codes "10.0.0.7", pos 3, a_port 22) ∷ []

report_all-lines_example :
    (lines (report_all to_lower results (single (stream (codes "10.0.0.0/24"))))
      ≡ map (found_line to_lower) results)
    × (lines (
          report_all to_lower results (multi (webhook monitor ∷ stream (codes "10.0.0.0/24") ∷ [])))
        ≡ [])
report_all-lines_example =
    report_all-lines to_lower results (codes "10.0.0.0/24")
      (webhook monitor ∷ stream (codes "10.0.0.0/24") ∷ [])

abbrev three : Bytes
three = 1 ∷ 2 ∷ 3 ∷ []

read_smb2-frame_direct_tcp_example :
    read_smb2 (frame_direct_tcp three ++ (9 ∷ []))
    ≡ done (
        if length three == 0 || ltb 65535 (length three)
        then invalid_length
        else message three (9 ∷ []))
read_smb2-frame_direct_tcp_example = read_smb2-frame_direct_tcp three (9 ∷ []) (omega arith)

-- The sizes of the two requests, and the offset of the security buffer.
requests :
    (length build_smb2_negotiate ≡ 4 + 64 + 36 + 4)
    × (length build_smb2_session_setup ≡ 4 + 64 + 24 + length ntlm_type1)
    × (drop (4 + 64 + 24) build_smb2_session_setup ≡ ntlm_type1)
unfolding build_smb2_negotiate build_smb2_session_setup ntlm_type1
requests = (refl, refl, refl)

-- A challenge that is cut off behind its signature.
parse_ntlm_challenge-Ends_example :
    Ends Anything (parse_ntlm_challenge (1 ∷ (codes "NTLMSSP" ++ (0 ∷ 2 ∷ []))))
parse_ntlm_challenge-Ends_example =
    parse_ntlm_challenge-Ends (1 ∷ (codes "NTLMSSP" ++ (0 ∷ 2 ∷ [])))

abbrev attributes : List Attribute
attributes = (2, 68 ∷ 0 ∷ []) ∷ (1, 80 ∷ 0 ∷ 67 ∷ 0 ∷ []) ∷ (3, []) ∷ []

challenge_runs : challenge_name (last_text 1 attributes []) (last_text 3 attributes []) ≡ codes "PC"
unfolding challenge_name utf16_le ipscry.Sanitize.sanitize_one_line trim_space
challenge_runs = refl

scan_attributes-last_example :
    scan_attributes
      (suc (length (encode_attributes attributes ++ ending (7 ∷ []))))
      (encode_attributes attributes ++ ending (7 ∷ []))
      0
      []
      []
    ≡ done (sanitize_one_line (preferred (last_text 3 attributes []) (last_text 1 attributes [])))
scan_attributes-last_example = scan_attributes-last attributes (7 ∷ []) (
  (omega arith, omega arith, omega arith),
  ((omega arith, omega arith, omega arith), ((omega arith, omega arith, omega arith), tt)),
)

-- The letters P and C, a rune beyond 16 bits, and an odd byte.
utf16_text_runs : utf16_text (80 ∷ 0x1f600 ∷ []) ≡ 80 ∷ 0 ∷ 0x3d ∷ 0xd8 ∷ 0x00 ∷ 0xde ∷ []
utf16_text_runs = refl

utf16_le-utf16_text_example :
    utf16_le (utf16_text (80 ∷ 67 ∷ 0x1f600 ∷ []) ++ 9 ∷ []) ≡ utf8_string (80 ∷ 67 ∷ 0x1f600 ∷ [])
utf16_le-utf16_text_example =
    utf16_le-utf16_text (80 ∷ 67 ∷ 0x1f600 ∷ []) (9 ∷ [])
      ((
        (omega arith, inl (omega arith)),
        ((omega arith, inl (omega arith)), ((omega arith, inr (omega arith)), tt)),
      ))
      (omega arith)

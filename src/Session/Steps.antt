-- ===== src/Session/Steps.antt =====
-- What the scan, the goroutines and the keys do to a session, in any order.
use ipscry.Common.{
  ℕ, ◌≡◌, sym, ap, ◌∙◌, inl, inr, Bool, true, false, not, ◌&&◌, ◌||◌, Option, List, [], ◌∷◌, arith,
  if◌then◌else◌, Bool-cases, Option-cases, Bytes,
}
use ipscry.Common.Text.{text_eq, text_eq_iff}
use mathlib.Core.Path.{subst}
use ipscry.Common.Int.{ℤ}
use ipscry.Common.Maps.{find, has, is_some, has-find, has-put, has-remove}
use ipscry.Hosts.{PortResult, HostResult, ArpCacheEntry}
use ipscry.Macs.{Ouis}
use ipscry.Keys.{TuiKey}
use ipscry.Enrich.{Lookups}
use ipscry.Tui.{ScanTui, TuiWatchConfig}
use ipscry.Tui.Rescan.Rows.{IsDistinct}
use ipscry.Tui.Steps.{Step, step-IsDistinct}
use ipscry.Session.{finish, ExportFormat, Exported, press, Session, begin_discover, end_discover}
use ipscry.Session.Rows.{
  table_of, press-IsDistinct, finish-IsDistinct, discovered-IsDistinct, step_keeps,
}

-- The addresses that goroutines of discoverHostAsync are at work on, one entry for each goroutine
abbrev pub is_running : Bytes → List Bytes → Bool
is_running ip [] = false
is_running ip (x ∷ xs) = text_eq x ip || is_running ip xs

unfoldable pub one_ends : Bytes → List Bytes → List Bytes
one_ends ip [] = []
one_ends ip (x ∷ xs) = let rest = one_ends ip xs in if text_eq x ip then xs else x ∷ rest

abbrev pub AreApart : List Bytes → Type 0
AreApart [] = Unit
AreApart (x ∷ xs) = (is_running x xs ≡ false) × AreApart xs

-- A session and the running goroutines
pub record World : Type 0 where
  pub session : Session
  pub running : List Bytes

unfoldable pub begin_one : ℕ → Bytes → ℤ → World → World
begin_one now ip latency w =
    let (s, starts) = begin_discover now ip latency w.session in
    record { session = s; running = if starts then ip ∷ w.running else w.running }

-- What happens in the watch phase, in any order: a step of the table, the end of a scan with hosts of one
-- address each, a key, and a host that is looked up, whose goroutine ends at some time.
pub data WatchStep (parse : Bytes → Option Bytes) : World → World → Type 0 where
  tabled :
      (v : Bytes → Bytes) (t : ScanTui) (w : World)
      → Step v w.session.table t
      → WatchStep parse w (record w { session = record (w.session) { table = t } })
  finished :
      (elapsed : ℕ) (watch : TuiWatchConfig) (hosts : List HostResult) (w : World)
      → IsDistinct hosts
      → WatchStep parse w (record w {
        session = record (w.session) { table = finish parse elapsed watch hosts w.session.table };
      })
  pressed :
      (save : ExportFormat → List HostResult → Bytes → Exported) (now rows : ℕ) (key : TuiKey)
      (w : World)
      → WatchStep parse w (record w {
        session = record (w.session) {
          table = table_of w.session.table (press parse save now rows key w.session.table);
        };
      })
  looked_up :
      (now : ℕ) (ip : Bytes) (latency : ℤ) (w : World)
      → WatchStep parse w (begin_one now ip latency w)
  found :
      (net : Lookups) (lower : Bytes → Bytes) (ouis : Ouis) (now : ℕ) (watch : TuiWatchConfig)
      (ip : Bytes) (latency : ℤ) (discovery : Bool) (arp : List (Bytes × ArpCacheEntry))
      (ports : List PortResult) (w : World)
      → is_running ip w.running ≡ true
      → WatchStep parse w (record {
        session = end_discover net lower ouis now watch ip latency discovery arp ports w.session;
        running = one_ends ip w.running;
      })

pub data Watched (parse : Bytes → Option Bytes) (from : World) : World → Type 0 where
  here : Watched parse from from
  and_then : (w u : World) → Watched parse from w → WatchStep parse w u → Watched parse from u

-- One row for an address, one goroutine for an address, and `pendingDiscover` has the addresses of the
-- goroutines.
pub record IsWatched (w : World) : Type 0 where
  pub rows_distinct : IsDistinct w.session.table.hosts
  pub running_apart : AreApart w.running
  pub pending_running : (k : Bytes) → has k w.session.pending ≡ is_running k w.running

one_gone :
    (x k : Bytes) (xs : List Bytes)
    → is_running x xs ≡ false
    → is_running k xs ≡ (not (text_eq x k) && (text_eq x k || is_running k xs))
one_gone x k xs new = elim (Bool-cases (text_eq x k)) [
  | inl e ↦
      let gone : is_running k xs ≡ false =
        subst (λ j. is_running j xs ≡ false) ((text_eq_iff x k).0 e) new in
      ground (arith, e, gone)
  | inr e ↦ ground (arith, e)
]

is_running-ends :
    (ip k : Bytes) (xs : List Bytes)
    → AreApart xs
    → is_running k (one_ends ip xs) ≡ (not (text_eq ip k) && is_running k xs)
unfolding one_ends
is_running-ends ip k [] d = ground arith
is_running-ends ip k (x ∷ xs) (new, d) = elim (Bool-cases (text_eq x ip)) [
  | inl e ↦ rw (e) (
      subst (λ i. is_running k xs ≡ (not (text_eq i k) && (text_eq x k || is_running k xs)))
        ((text_eq_iff x ip).0 e) (one_gone x k xs new))
  | inr e ↦ rw (e) (
      ground
        (arith, is_running-ends ip k xs d, e, text_eq_iff x ip, text_eq_iff x k, text_eq_iff ip k))
]

ends-AreApart : (ip : Bytes) (xs : List Bytes) → AreApart xs → AreApart (one_ends ip xs)
unfolding one_ends
ends-AreApart ip [] d = tt
ends-AreApart ip (x ∷ xs) (new, d) = elim (Bool-cases (text_eq x ip)) [
  | inl e ↦ rw (e) d
  | inr e ↦ rw (e) (is_running-ends ip x xs d ∙ rw (new) (ground arith), ends-AreApart ip xs d)
]

begin_one-IsWatched :
    (now : ℕ) (ip : Bytes) (latency : ℤ) (w : World)
    → IsWatched w
    → IsWatched (begin_one now ip latency w)
unfolding begin_one begin_discover
begin_one-IsWatched now ip latency w i = elim (Option-cases (find ip w.session.pending)) [
  | inr (u, e) ↦
      rw (e, begin_discover)
        (record {
          rows_distinct = i.rows_distinct;
          running_apart = i.running_apart;
          pending_running = i.pending_running;
        })
  | inl e ↦
      let new : has ip w.session.pending ≡ false = has-find ip w.session.pending ∙ ap is_some e in
      rw (e, begin_discover)
        (record {
          rows_distinct =
              step_keeps w.session.table _ (Step.discovered now ip latency w.session.table)
                i.rows_distinct;
          running_apart = (sym (i.pending_running ip) ∙ new, i.running_apart);
          pending_running = λ k.
              has-put ip k tt w.session.pending ∙ ap (λ b. text_eq ip k || b) (i.pending_running k);
        })
]

WatchStep-IsWatched :
    (parse : Bytes → Option Bytes) (w u : World) → WatchStep parse w u → IsWatched w → IsWatched u
WatchStep-IsWatched parse w _ (tabled v t _ step) i = record {
  rows_distinct = step-IsDistinct v w.session.table t step i.rows_distinct;
  running_apart = i.running_apart;
  pending_running = i.pending_running;
}
WatchStep-IsWatched parse w _ (finished elapsed watch hosts _ d) i = record {
  rows_distinct = finish-IsDistinct parse elapsed watch hosts w.session.table d;
  running_apart = i.running_apart;
  pending_running = i.pending_running;
}
WatchStep-IsWatched parse w _ (pressed save now rows key _) i = record {
  rows_distinct = press-IsDistinct parse save now rows key w.session.table i.rows_distinct;
  running_apart = i.running_apart;
  pending_running = i.pending_running;
}
WatchStep-IsWatched parse w _ (looked_up now ip latency _) i =
    begin_one-IsWatched now ip latency w i
WatchStep-IsWatched parse w _ (found net lower ouis now watch ip latency disc arp ports _ at_work)
      i =
    unfold end_discover in
    record {
      rows_distinct =
          discovered-IsDistinct net lower ouis now watch ip latency disc arp ports w.session.table
            i.rows_distinct;
      running_apart = ends-AreApart ip w.running i.running_apart;
      pending_running = λ k.
          has-remove k ip w.session.pending
          ∙ ap (λ b. not (text_eq ip k) && b) (i.pending_running k)
          ∙ sym (is_running-ends ip k w.running i.running_apart);
    }

-- Steps of the table, ends of a scan with one host for an address, keys and lookups, in any
-- order, keep that the table has at most one row for an address, that at most one goroutine of
-- discoverHostAsync is at work on an address, and that pendingDiscover has exactly the addresses
-- of these goroutines.
pub Watched-IsWatched :
    (parse : Bytes → Option Bytes) (w u : World) → Watched parse w u → IsWatched w → IsWatched u
Watched-IsWatched parse w _ here i = i
Watched-IsWatched parse w _ (and_then v u r step) i =
    WatchStep-IsWatched parse v u step (Watched-IsWatched parse w v r i)

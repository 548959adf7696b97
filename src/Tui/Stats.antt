-- ===== src/Tui/Stats.antt =====
-- The ping statistics that the watch table keeps for each address.
use ipscry.Common.{
  ℕ, ◌+◌, ◌-◌, ◌*◌, ◌/◌, ◌≤◌, ◌<◌, min, ◌≡◌, refl, ap, ◌⊎◌, inl, inr, ◌||◌, List, [], ◌∷◌, ◌++◌,
  arith, ltb, if◌then◌else◌, Bool-cases, length, drop, All, length-append, length-drop, All-append,
  All-drop, Bytes,
}
use ipscry.Common.Text.{text_eq}
use Prim.Native.Nat.{max}
use native.Mathlib.Nat.{le-div_iff_mul-le, div-lt_iff_lt-mul}
use ipscry.Common.Int.{ℤ, pos, negsuc, is_negative, ltℤ, minus_one}
use ipscry.Common.Maps.{find, put, remove}
use ipscry.Tui.{
  HostPingStats, stats_for, add_sample, add_miss, record_ping, record_miss, tui_ping_avg_window,
  sum, avg,
}

-- Each sample lies between the two numbers.
abbrev pub Within : ℕ → ℕ → List ℕ → Type 0
Within lo hi xs = All (λ x. (lo ≤ x) × (x ≤ hi)) xs

-- The extremes bound the samples, of which there is one at least.
abbrev pub IsBounded : ℕ → ℕ → HostPingStats → Type 0
IsBounded lo hi s =
    (s.min ≡ pos lo)
    × (s.max ≡ pos hi)
    × (lo ≤ hi)
    × (0 < length s.samples)
    × Within lo hi s.samples

-- No sample has been seen.
abbrev pub IsFresh : HostPingStats → Type 0
IsFresh s = (s.samples ≡ []) × (s.min ≡ minus_one) × (s.max ≡ minus_one)

abbrev pub IsKept : HostPingStats → Type 0
IsKept s =
    (length s.samples ≤ tui_ping_avg_window)
    × (IsFresh s ⊎ ((lo : ℕ) × ((hi : ℕ) × IsBounded lo hi s)))

widen : (lo hi a b : ℕ) (xs : List ℕ) → a ≤ lo → hi ≤ b → Within lo hi xs → Within a b xs
widen lo hi a b [] la hb h = tt
widen lo hi a b (x ∷ xs) la hb (h, t) = ((omega arith, omega arith), widen lo hi a b xs la hb t)

-- The samples after a ping.
abbrev newest : List ℕ → List ℕ
newest xs =
    if ltb tui_ping_avg_window (length xs) then drop (length xs - tui_ping_avg_window) xs else xs

length-newest : (xs : List ℕ) → length (newest xs) ≡ min 6 (length xs)
length-newest xs = ground (arith, length-drop {0} (length xs - 6) xs)

newest-Within : (lo hi : ℕ) (xs : List ℕ) → Within lo hi xs → Within lo hi (newest xs)
newest-Within lo hi xs h = elim (Bool-cases (ltb 6 (length xs))) [
  | inl e ↦ rw (e) (All-drop (λ x. (lo ≤ x) × (x ≤ hi)) (length xs - 6) xs h)
  | inr e ↦ rw (e) h
]

-- The samples after a ping, which lie between the widened extremes.
pinged-Within :
    (lo hi ms : ℕ) (xs : List ℕ)
    → Within lo hi xs
    → lo ≤ ms
    → ms ≤ hi
    → (length (newest (xs ++ ms ∷ [])) ≤ 6)
      × ((0 < length (newest (xs ++ ms ∷ []))) × Within lo hi (newest (xs ++ ms ∷ [])))
pinged-Within lo hi ms xs h a b =
    let n = length-newest (xs ++ ms ∷ []) in
    let l = length-append {0} xs (ms ∷ []) in
    (
      omega arith,
      (
        omega arith,
        newest-Within lo hi (xs ++ ms ∷ [])
            (All-append (λ x. (lo ≤ x) × (x ≤ hi)) xs (ms ∷ []) h ((a, b), tt)),
      ),
    )

-- The extremes after a ping.
new_min :
    (m : ℤ) (lo ms : ℕ)
    → (m ≡ minus_one) × (lo ≡ ms) ⊎ (m ≡ pos lo)
    → (if is_negative m || ltℤ (pos ms) m then pos ms else m) ≡ pos (min lo ms)
new_min m lo ms (inl (e, same)) = rw (e) (ap pos (omega arith))
new_min m lo ms (inr e) = rw (e) (ground arith)

new_max :
    (m : ℤ) (hi ms : ℕ)
    → (m ≡ minus_one) × (hi ≡ ms) ⊎ (m ≡ pos hi)
    → (if ltℤ m (pos ms) then pos ms else m) ≡ pos (max hi ms)
new_max m hi ms (inl (e, same)) = rw (e) (ap pos (omega arith))
new_max m hi ms (inr e) = rw (e) (ground arith)

add_sample-IsKept : (s : HostPingStats) (ms : ℕ) → IsKept s → IsKept (add_sample s ms)
unfolding add_sample
add_sample-IsKept s ms (few, inl (e, a, b)) =
    let none_yet : Within ms ms s.samples = rw (e) tt in
    let (few2, (some2, within)) =
      pinged-Within ms ms ms s.samples none_yet (omega arith) (omega arith) in
    (
      few2,
      inr (
        min ms ms,
        (
          max ms ms,
          (
            new_min s.min ms ms (inl (a, refl)),
            new_max s.max ms ms (inl (b, refl)),
            omega arith,
            some2,
            widen ms ms (min ms ms) (max ms ms) _ (omega arith) (omega arith) within,
          ),
        ),
      ),
    )
add_sample-IsKept s ms (few, inr (lo, (hi, (a, b, le, some1, h)))) =
    let wide = widen lo hi (min lo ms) (max hi ms) s.samples (omega arith) (omega arith) h in
    let (few2, (some2, within)) =
      pinged-Within (min lo ms) (max hi ms) ms s.samples wide (omega arith) (omega arith) in
    (
      few2,
      inr (
        min lo ms,
        (
          max hi ms,
          (new_min s.min lo ms (inr a), new_max s.max hi ms (inr b), omega arith, some2, within),
        ),
      ),
    )

-- The statistics of every address
abbrev AllKept : List (Bytes × HostPingStats) → Type 0
AllKept m = All (λ e. IsKept e.1) m

put-AllKept :
    (ip : Bytes) (s : HostPingStats) (m : List (Bytes × HostPingStats))
    → IsKept s
    → AllKept m
    → AllKept (put ip s m)
unfolding put
put-AllKept ip s [] k h = (k, tt)
put-AllKept ip s ((j, r) ∷ m) k (h, t) = elim (Bool-cases (text_eq j ip)) [
  | inl e ↦ rw (e) (k, t)
  | inr e ↦ rw (e) (h, put-AllKept ip s m k t)
]

remove-AllKept : (ip : Bytes) (m : List (Bytes × HostPingStats)) → AllKept m → AllKept (remove ip m)
unfolding remove
remove-AllKept ip [] h = tt
remove-AllKept ip ((j, r) ∷ m) (h, t) = elim (Bool-cases (text_eq j ip)) [
  | inl e ↦ rw (e) (remove-AllKept ip m t)
  | inr e ↦ rw (e) (h, remove-AllKept ip m t)
]

stats_for-IsKept :
    (ip : Bytes) (m : List (Bytes × HostPingStats)) → AllKept m → IsKept (stats_for m ip)
unfolding stats_for find
stats_for-IsKept ip [] h = (omega arith, inl (refl, refl, refl))
stats_for-IsKept ip ((j, r) ∷ m) (h, t) = elim (Bool-cases (text_eq j ip)) [
  | inl e ↦ rw (e, stats_for) h
  | inr e ↦ rw (e, stats_for) (stats_for-IsKept ip m t)
]

-- What the table does to its statistics: pings, missed pings and removed hosts, in any order.
pub data Reachable : List (Bytes × HostPingStats) → Type 0 where
  none_seen : Reachable []
  pinged :
      (ip : Bytes) (ms : ℤ) (m : List (Bytes × HostPingStats))
      → Reachable m
      → Reachable (record_ping ip ms m)
  missed :
      (ip : Bytes) (m : List (Bytes × HostPingStats)) → Reachable m → Reachable (record_miss ip m)
  forgotten :
      (ip : Bytes) (m : List (Bytes × HostPingStats)) → Reachable m → Reachable (remove ip m)

Reachable-AllKept : (m : List (Bytes × HostPingStats)) → Reachable m → AllKept m
unfolding record_ping record_miss add_miss
Reachable-AllKept _ none_seen = tt
Reachable-AllKept _ (pinged ip (pos ms) m r) =
    let h = Reachable-AllKept m r in
    put-AllKept ip (add_sample (stats_for m ip) ms) m
      (add_sample-IsKept (stats_for m ip) ms (stats_for-IsKept ip m h)) h
Reachable-AllKept _ (pinged ip (negsuc n) m r) = Reachable-AllKept m r
Reachable-AllKept _ (missed ip m r) =
    let h = Reachable-AllKept m r in
    put-AllKept ip (add_miss (stats_for m ip)) m (stats_for-IsKept ip m h) h
Reachable-AllKept _ (forgotten ip m r) = remove-AllKept ip m (Reachable-AllKept m r)

sum-Within :
    (lo hi : ℕ) (xs : List ℕ)
    → Within lo hi xs
    → (lo * length xs ≤ sum xs) × (sum xs ≤ hi * length xs)
unfolding sum
sum-Within lo hi [] h = (omega arith, omega arith)
sum-Within lo hi (x ∷ xs) ((a, b), t) =
    let (p, q) = sum-Within lo hi xs t in (grind arith, grind arith)

-- A mean is shown that lies between the extremes shown.
abbrev pub IsShown : HostPingStats → Type 0
IsShown s =
    (lo : ℕ) × ((hi : ℕ) × ((mean : ℕ) × (IsBounded lo hi s
          × (avg s ≡ pos mean)
          × (lo ≤ mean)
          × (mean ≤ hi))))

mean_between :
    (lo hi n total : ℕ)
    → 0 < n
    → lo * n ≤ total
    → total ≤ hi * n
    → (lo ≤ total / n) × (total / n ≤ hi)
mean_between lo hi n total h a b = (
  (le-div_iff_mul-le h).1 a,
  let below : total / n < hi + 1 = (div-lt_iff_lt-mul h).1 (grind arith) in omega arith,
)

IsKept-IsShown : (s : HostPingStats) (lo hi : ℕ) → IsBounded lo hi s → IsShown s
unfolding avg
IsKept-IsShown s lo hi (a, b, le, some1, h) =
    let (p, q) = sum-Within lo hi s.samples h in
    let (u, v) = mean_between lo hi (length s.samples) (sum s.samples) some1 p q in
    (lo, (hi, (sum s.samples / length s.samples, ((a, b, le, some1, h), ground arith, u, v))))

avg-fresh : (s : HostPingStats) → s.samples ≡ [] → avg s ≡ minus_one
unfolding avg
avg-fresh s e = rw (e) refl

-- After any pings, missed pings and removed hosts, in any order, every address has at most six
-- samples; either none was seen yet and the extremes and the mean are -1, or the extremes bound
-- every sample, and so does the mean lie between them.
pub Reachable_lem :
    (m : List (Bytes × HostPingStats)) (ip : Bytes)
    → Reachable m
    → (length (stats_for m ip).samples ≤ tui_ping_avg_window)
      × ((IsFresh (stats_for m ip) × (avg (stats_for m ip) ≡ minus_one)) ⊎ IsShown (stats_for m ip))
Reachable_lem m ip r =
    let (few, how) = stats_for-IsKept ip m (Reachable-AllKept m r) in
    (
      few,
      elim how [
        | inl f ↦ inl (f, avg-fresh (stats_for m ip) f.0)
        | inr (lo, (hi, b)) ↦ inr (IsKept-IsShown (stats_for m ip) lo hi b)
      ],
    )

-- ===== src/Scan/Title.antt =====
-- When extractTitle is safe, and when it is not.
use ipscry.Common.{
  ℕ, zero, suc, ◌+◌, ◌-◌, ◌*◌, ◌≤◌, ◌<◌, ◌≡◌, refl, ap, ◌∙◌, inl, inr, false, ◌&&◌, Option, none,
  some, ◌∷◌, ◌++◌, arith, leb, Option-cases, length, drop, replicate, length-append, take-all,
  length-drop, done, panic, Ends, slice, slice-le, Bytes,
}
use ipscry.Common.Text.{codes, has_prefix, index_from, index}
use ipscry.Common.Index.{index-bound}
use ipscry.Dns.Bounds.{Anything}
use ipscry.Scan.{cut_title, open_title, close_title, extract_title}

pub from-le : (lo : ℕ) (s : Bytes) → lo ≤ length s → slice s lo (length s) ≡ done (drop lo s)
from-le lo s h =
    slice-le s lo (length s) h (omega arith)
    ∙ ap done (take-all (length s - lo) (drop lo s) (omega (arith, length-drop {0} lo s)))

abbrev pub IsWithin : Bytes → Bytes → Option ℕ → Type 0
IsWithin p s none = Unit
IsWithin p s (some k) = k + length p ≤ length s

pub index-IsWithin : (p s : Bytes) → IsWithin p s (index p s)
index-IsWithin p s = elim (Option-cases (index p s)) [
  | inl e ↦ rw (e) tt
  | inr (k, e) ↦ rw (e) (index-bound p s k e)
]

cut_title-Ends :
    (unescape : Bytes → Bytes) (body low : Bytes) (start : ℕ) (stop : Option ℕ)
    → length low ≡ length body
    → start ≤ length low
    → IsWithin (codes "</title>") (drop start low) stop
    → Ends Anything (cut_title unescape body start stop)
unfolding cut_title
cut_title-Ends unescape body low start none same h w = tt
cut_title-Ends unescape body low start (some stop) same h w =
    let size = length-drop {0} start low in
    rw (slice-le body start (start + stop) (omega arith) (omega arith)) tt

close_title-Ends :
    (unescape : Bytes → Bytes) (body low : Bytes) (first : ℕ) (start : Option ℕ)
    → length low ≡ length body
    → first ≤ length low
    → IsWithin (codes ">") (drop first low) start
    → Ends Anything (close_title unescape body low first start)
unfolding close_title
close_title-Ends unescape body low first none same h w = tt
close_title-Ends unescape body low first (some start) same h w =
    let size = length-drop {0} first low in
    rw (from-le (first + start + 1) low (omega arith)) (
      cut_title-Ends unescape body low (first + start + 1)
        (index (codes "</title>") (drop (first + start + 1) low)) same (omega arith)
        (index-IsWithin (codes "</title>") (drop (first + start + 1) low)))

open_title-Ends :
    (unescape : Bytes → Bytes) (body low : Bytes) (first : Option ℕ)
    → length low ≡ length body
    → IsWithin (codes "<title") low first
    → Ends Anything (open_title unescape body low first)
unfolding open_title
open_title-Ends unescape body low none same w = tt
open_title-Ends unescape body low (some first) same w = rw (from-le first low (omega arith)) (
    close_title-Ends unescape body low first (index (codes ">") (drop first low)) same (omega arith)
      (index-IsWithin (codes ">") (drop first low)))

-- extractTitle returns, without a slice out of bounds, on every text that has the same length in lower case.
pub extract_title-Ends :
    (lower unescape : Bytes → Bytes) (body : Bytes)
    → length (lower body) ≡ length body
    → Ends Anything (extract_title lower unescape body)
unfolding extract_title
extract_title-Ends lower unescape body same =
    open_title-Ends unescape body (lower body) (index (codes "<title") (lower body)) same
      (index-IsWithin (codes "<title") (lower body))

-- U+FFFD for each of n bytes
abbrev pub replaced : ℕ → Bytes → Bytes
replaced zero s = s
replaced (suc n) s = 0xef ∷ 0xbf ∷ 0xbd ∷ replaced n s

-- n bytes that are no UTF-8
abbrev pub broken : ℕ → Bytes
broken n = replicate n 0xff

abbrev pub empty_title : Bytes
empty_title = codes "<title></title>"

length-replaced : (n : ℕ) (s : Bytes) → length (replaced n s) ≡ 3 * n + length s
length-replaced zero s = omega arith
length-replaced (suc n) s = omega (arith, length-replaced n s)

index-replaced :
    (n i : ℕ) → index_from i (codes "<title") (replaced n empty_title) ≡ some (3 * n + i)
unfolding index_from has_prefix
index-replaced zero i = ap some (omega arith)
index-replaced (suc n) i = index-replaced n (i + 1 + 1 + 1) ∙ ap some (omega arith)

drop-replaced : (n k : ℕ) (s : Bytes) → drop (3 * n + k) (replaced n s) ≡ drop k s
drop-replaced zero k s = ap (λ j. drop j s) (omega arith)
drop-replaced (suc n) k s = ap (λ j. drop j (replaced (suc n) s)) (three n k) ∙ drop-replaced n k s
  where
    three : (n k : ℕ) → 3 * suc n + k ≡ suc (suc (suc (3 * n + k)))
    three n k = omega arith

index-low : (n : ℕ) → index (codes "<title") (replaced n empty_title) ≡ some (3 * n)
unfolding index
index-low n = index-replaced n 0 ∙ ap some (omega arith)

length-broken : (n : ℕ) → length (broken n) ≡ n
length-broken zero = refl
length-broken (suc n) = ap suc (length-broken n)

-- The reading of the replaced text
opened :
    (unescape : Bytes → Bytes) (n : ℕ) (body : Bytes)
    → open_title unescape body (replaced n empty_title) (some (3 * n))
      ≡ cut_title unescape body (3 * n + 6 + 1) (some 0)
unfolding open_title close_title index index_from has_prefix
opened unescape n body =
    let low = replaced n empty_title in
    let size = length-replaced n empty_title in
    let rest : drop (3 * n) low ≡ empty_title =
      ap (λ k. drop k low) (omega arith) ∙ drop-replaced n 0 empty_title in
    let back : drop (3 * n + 6 + 1) low ≡ codes "</title>" =
      ap (λ k. drop k low) (omega arith) ∙ drop-replaced n 7 empty_title in
    rw (from-le (3 * n) low (omega arith) ∙ ap done rest)
      (rw (from-le (3 * n + 6 + 1) low (omega arith) ∙ ap done back) refl)

beyond :
    (unescape : Bytes → Bytes) (body : Bytes) (k : ℕ)
    → length body < k + 6 + 1
    → cut_title unescape body (k + 6 + 1) (some 0) ≡ panic
unfolding cut_title slice
beyond unescape body k h =
    let out : (leb (k + 6 + 1) (k + 6 + 1 + 0) && leb (k + 6 + 1 + 0) (length body)) ≡ false =
      ground arith in
    rw (out) refl

-- On a page of five or more bytes that are no UTF-8 and an empty title, extractTitle panics, if
-- strings.ToLower writes the three bytes of U+FFFD for each of them: the title then seems to start behind
-- the end of the page.
pub extract_title_panics :
    (lower unescape : Bytes → Bytes) (n : ℕ)
    → 5 ≤ n
    → lower (broken n ++ empty_title) ≡ replaced n empty_title
    → extract_title lower unescape (broken n ++ empty_title) ≡ panic
unfolding extract_title
extract_title_panics lower unescape n h e =
    let body = broken n ++ empty_title in
    let low = replaced n empty_title in
    ap (λ l. open_title unescape body l (index (codes "<title") l)) e
    ∙ ap (open_title unescape body low) (index-low n)
    ∙ opened unescape n body
    ∙ beyond unescape body (3 * n)
        (omega (arith, length-append {0} (broken n) empty_title, length-broken n))

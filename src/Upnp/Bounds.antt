-- ===== src/Upnp/Bounds.antt =====
-- When extractXMLTag and what reads tags with it are safe.
use ipscry.Common.{
  ℕ, ◌+◌, ◌-◌, ◌≤◌, ◌≡◌, refl, Option, none, some, ◌++◌, arith, length, drop, length-drop, Ends,
  slice-le, Bytes,
}
use ipscry.Common.Text.{codes, index}
use ipscry.Common.Index.{index-bound}
use ipscry.Dns.Bounds.{Anything}
use ipscry.Scan.Title.{from-le}
use ipscry.Upnp.{cut_tag, close_tag, extract_xml_tag}

cut_tag-Ends :
    (body : Bytes) (start n : ℕ) (stop : Option ℕ)
    → n ≡ length body - start
    → start ≤ length body
    → ((k : ℕ) → stop ≡ some k → k ≤ n)
    → Ends Anything (cut_tag body start stop)
unfolding cut_tag
cut_tag-Ends body start n none e h w = tt
cut_tag-Ends body start n (some stop) e h w =
    let fits = w stop refl in rw (slice-le body start (start + stop) (omega arith) (omega arith)) tt

module _ (lower : Bytes → Bytes) (keeps : (s : Bytes) → length (lower s) ≡ length s) where
  within : (p s : Bytes) (k : ℕ) → index (lower p) (lower s) ≡ some k → k + length p ≤ length s
  within p s k e = omega (arith, index-bound (lower p) (lower s) k e, keeps p, keeps s)

  close_tag-Ends :
      (body close open_tag : Bytes) (found : Option ℕ)
      → ((k : ℕ) → found ≡ some k → k + length open_tag ≤ length body)
      → Ends Anything (close_tag lower body close (length open_tag) found)
  unfolding close_tag
  close_tag-Ends body close open_tag none w = tt
  close_tag-Ends body close open_tag (some found) w =
      let fits = w found refl in
      let start = found + length open_tag in
      rw (from-le start body (omega arith)) (
        cut_tag-Ends body start (length (drop start body))
          (index (lower close) (lower (drop start body))) (length-drop {0} start body) (omega arith)
          (λ k e. omega (arith, within close (drop start body) k e)))

  -- extractXMLTag returns, without a slice out of bounds, if no text changes its length in lower case.
  pub extract_xml_tag-Ends : (body tag : Bytes) → Ends Anything (extract_xml_tag lower body tag)
  unfolding extract_xml_tag
  extract_xml_tag-Ends body tag =
      let open_tag = codes "<" ++ (tag ++ codes ">") in
      close_tag-Ends body (codes "</" ++ (tag ++ codes ">")) open_tag
        (index (lower open_tag) (lower body)) (λ k e. within open_tag body k e)

-- ===== src/Upnp.antt =====
-- The texts that discovery reads in ssdp.go and wsd.go: firstNonEmpty, extractXMLTag,
-- parseUPnPDescription and the search for the fields of a WS-Discovery answer. `strings.ToLower` on any
-- text is an argument, and so is what encoding/xml finds.
pub mod Bounds
use ipscry.Common.{
  ℕ, ◌+◌, ◌/◌, ◌<◌, not, ◌&&◌, ◌||◌, Option, none, some, List, [], ◌∷◌, ◌++◌, ◌==◌, if◌then◌else◌,
  length, Go, done, ◌>>=◌, slice, Bytes,
}
use ipscry.Common.Text.{codes, contains, index}
use ipscry.Common.Trim.{trim_space}
use ipscry.Sanitize.{sanitize_one_line}
use ipscry.Discovery.{append_unique_strings}

unfoldable pub first_non_empty : List Bytes → Bytes
unfolding trim_space
first_non_empty [] = []
first_non_empty (v ∷ values) =
    let rest = first_non_empty values in if length (trim_space v) == 0 then rest else trim_space v

-- The text of a tag, between its start and the place of its end behind that
unfoldable pub cut_tag : Bytes → ℕ → Option ℕ → Go Bytes
cut_tag body start none = done []
cut_tag body start (some stop) = do text ← slice body start (start + stop); done (trim_space text)

module _ (lower : Bytes → Bytes) where
  unfoldable pub close_tag : Bytes → Bytes → ℕ → Option ℕ → Go Bytes
  unfolding cut_tag
  close_tag body close size none = done []
  close_tag body close size (some found) = do
    rest ← slice body (found + size) (length body)
    cut_tag body (found + size) (index (lower close) (lower rest))

  unfoldable pub extract_xml_tag : Bytes → Bytes → Go Bytes
  unfolding close_tag
  extract_xml_tag body tag =
      let open_tag = codes "<" ++ (tag ++ codes ">") in
      close_tag body (codes "</" ++ (tag ++ codes ">")) (length open_tag)
        (index (lower open_tag) (lower body))

  unfoldable pub parse_upnp_description : Bytes → Go (Bytes × Bytes)
  unfolding extract_xml_tag
  parse_upnp_description body = do
    friendly ← extract_xml_tag body (codes "friendlyName")
    model ← extract_xml_tag body (codes "modelName")
    maker ←
        (if length friendly == 0
          then extract_xml_tag body (codes "manufacturer")
          else done friendly)
    done (sanitize_one_line maker, sanitize_one_line model)

  -- `strings.FieldsFunc`, with the field that is being read
  unfoldable pub fields_onto : Bytes → Bytes → List Bytes
  fields_onto field [] = if length field == 0 then [] else field ∷ []
  fields_onto field (c ∷ s) =
      let rest = fields_onto [] s in
      let more = fields_onto (field ++ c ∷ []) s in
      if c == b' ' || (c == 9 || (c == 13 || c == 10))
      then (if length field == 0 then rest else field ∷ rest)
      else more

  unfoldable pub sanitize_fields : List Bytes → List Bytes
  sanitize_fields [] = []
  sanitize_fields (part ∷ parts) =
      let rest = sanitize_fields parts in
      if length (sanitize_one_line part) == 0 then rest else sanitize_one_line part ∷ rest

  -- A line feed is made a space before the fields are cut, so it is one of the separators.
  unfoldable pub split_wsd_field : Bytes → List Bytes
  unfolding fields_onto sanitize_fields
  split_wsd_field raw = sanitize_fields (fields_onto [] (trim_space raw))

  unfoldable pub plain_fields : Bytes → Bytes → List Bytes → Go (List Bytes)
  unfolding extract_xml_tag split_wsd_field
  plain_fields text tag (found ∷ more) = done (found ∷ more)
  plain_fields text tag [] = do plain ← extract_xml_tag text tag; done (split_wsd_field plain)

  -- The fields that encoding/xml found, or those of the tag with the prefix, or without
  unfoldable pub wsd_fields : Bytes → Bytes → List Bytes → Go (List Bytes)
  unfolding extract_xml_tag split_wsd_field plain_fields
  wsd_fields text tag (found ∷ more) = done (found ∷ more)
  wsd_fields text tag [] = do
    prefixed ← extract_xml_tag text (codes "wsd:" ++ tag)
    plain_fields text tag (split_wsd_field prefixed)

  -- A match of the answer: its types, addresses and scopes
  unfoldable pub add_matches :
      List (Bytes × Bytes × Bytes)
      → List Bytes × List Bytes × List Bytes
      → List Bytes × List Bytes × List Bytes
  unfolding split_wsd_field append_unique_strings
  add_matches [] found = found
  add_matches ((t, x, s) ∷ matches) (types, xaddrs, scopes) = add_matches matches (
    append_unique_strings lower types (split_wsd_field t),
    append_unique_strings lower xaddrs (split_wsd_field x),
    append_unique_strings lower scopes (split_wsd_field s),
  )

  -- `matches` is what `xml.Unmarshal` gives, nothing where it fails.
  unfoldable pub parse_wsd_response :
      List (Bytes × Bytes × Bytes) → Bytes → Go (List Bytes × List Bytes × List Bytes)
  unfolding add_matches wsd_fields
  parse_wsd_response matches text =
      let (types, xaddrs, scopes) = add_matches matches ([], [], []) in
      let found = do
        t ← wsd_fields text (codes "Types") types
        x ← wsd_fields text (codes "XAddrs") xaddrs
        s ← wsd_fields text (codes "Scopes") scopes
        done (t, x, s)
      in if not (contains (codes "ProbeMatches") text) && not (contains (codes "ProbeMatch") text)
        then done ([], [], [])
        else found

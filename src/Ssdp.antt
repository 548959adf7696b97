-- ===== src/Ssdp.antt =====
-- The texts of SSDP in ssdp.go: buildSSDPMSearch and parseSSDPResponse. `strings.ToUpper` on any text is
-- an argument.
pub mod Headers
use ipscry.Common.{
  ◌+◌, ◌-◌, ◌*◌, ◌/◌, not, ◌&&◌, Option, none, some, List, [], ◌∷◌, ◌++◌, ◌==◌, if◌then◌else◌,
  length, Bytes,
}
use ipscry.Common.Text.{codes, text_eq, has_prefix, cut}
use ipscry.Common.Trim.{trim_space}
use ipscry.Sanitize.{sanitize_one_line}

abbrev crlf : Bytes
crlf = 13 ∷ 10 ∷ []

unfoldable pub ssdp_search_targets : List Bytes
ssdp_search_targets =
    codes "ssdp:all"
    ∷ codes "upnp:rootdevice"
    ∷ codes "urn:schemas-upnp-org:device:MediaRenderer:1"
    ∷ codes "urn:schemas-upnp-org:device:MediaServer:1"
    ∷ []

unfoldable pub build_ssdp_m_search : Bytes → Bytes
build_ssdp_m_search target =
    codes "M-SEARCH * HTTP/1.1"
    ++ (crlf
        ++ (codes "HOST: 239.255.255.250:1900"
            ++ (crlf
                ++ (codes "MAN: \"ssdp:discover\""
                    ++ (crlf
                        ++ (codes "MX: 2"
                            ++ (crlf ++ (codes "ST: " ++ (target ++ (crlf ++ crlf))))))))))

-- `strings.Split(text, "\r\n")`, with the line that is being read
unfoldable pub split_lines : Bytes → Bytes → List Bytes
split_lines line [] = line ∷ []
split_lines line (c ∷ []) = (line ++ c ∷ []) ∷ []
split_lines line (c ∷ d ∷ text) =
    let next = split_lines [] text in
    let more = split_lines (line ++ c ∷ []) (d ∷ text) in
    if c == 13 && d == 10 then line ∷ next else more

-- The headers that are kept
pub record SsdpResponse : Type 0 where
  pub server : Bytes
  pub st : Bytes
  pub location : Bytes
  pub usn : Bytes

-- `if field == "" { field = val }`
abbrev pub keep_first : Bytes → Bytes → Bytes
keep_first old val = if length old == 0 then val else old

module _ (upper : Bytes → Bytes) where
  -- The key and the value of a line; `none` for one without a colon
  unfoldable pub header : Option (Bytes × Bytes) → Option (Bytes × Bytes)
  unfolding trim_space
  header none = none
  header (some (key, val)) = some (upper (trim_space key), sanitize_one_line (trim_space val))

  unfoldable pub read_line : Bytes → Option (Bytes × Bytes)
  unfolding header trim_space cut
  read_line line =
      if length (trim_space line) == 0 then none else header (cut b':' (trim_space line))

  -- The switch over the key
  unfoldable pub use_header : Option (Bytes × Bytes) → SsdpResponse → SsdpResponse
  unfolding text_eq
  use_header none r = r
  use_header (some (key, val)) r =
      if text_eq key (codes "SERVER")
      then record r { server = keep_first r.server val }
      else if text_eq key (codes "ST")
      then record r { st = keep_first r.st val }
      else if text_eq key (codes "LOCATION")
      then record r { location = keep_first r.location val }
      else if text_eq key (codes "USN")
      then record r { usn = keep_first r.usn val }
      else r

  unfoldable pub use_lines : List Bytes → SsdpResponse → SsdpResponse
  unfolding read_line use_header
  use_lines [] r = r
  use_lines (line ∷ lines) r = use_lines lines (use_header (read_line line) r)

  abbrev pub no_response : SsdpResponse
  no_response = record { server = []; st = []; location = []; usn = [] }

  unfoldable pub parse_ssdp_response : Bytes → SsdpResponse
  unfolding has_prefix split_lines use_lines
  parse_ssdp_response text =
      if not (has_prefix (codes "HTTP/1.") text)
      then no_response
      else use_lines (split_lines [] text) no_response

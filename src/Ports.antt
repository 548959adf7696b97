-- ===== src/Ports.antt =====
-- parsePorts and splitIPChunks of main.go. The ports of the embedded data and `strings.ToLower` on any
-- text are arguments.
pub mod Valid
pub mod Covers
pub mod Chunks
use ipscry.Common.{
  ℕ, zero, suc, ◌+◌, ◌-◌, Bool, false, ◌||◌, Option, none, some, List, [], ◌∷◌, ◌++◌, ltb, leb,
  ◌==◌, if◌then◌else◌, length, take, drop, Bytes,
}
use ipscry.Common.Text.{codes, text_eq, split, cut}
use ipscry.Common.Trim.{trim_space}
use ipscry.Common.Atoi.{atoi}
use ipscry.Common.Int.{ℤ, pos}

pub data PortsError : Type 0 where
  invalid_range invalid_port : Bytes → PortsError
  no_port : PortsError

pub data PortsResult : Type 0 where
  ok : List ℕ → PortsResult
  err : PortsError → PortsResult

-- `seen[port]`: the map holds the ports of the list at every moment.
unfoldable pub has : ℕ → List ℕ → Bool
has port [] = false
has port (p ∷ ports) = p == port || has port ports

-- The closure `add`
unfoldable pub add : ℕ → List ℕ → List ℕ
unfolding has
add port ports = if has port ports then ports else ports ++ port ∷ []

-- `for port := start; port <= end; port++ { add(port) }`, with the rounds counted
unfoldable pub add_range : ℕ → ℕ → List ℕ → List ℕ
unfolding add
add_range zero port ports = ports
add_range (suc rounds) port ports = add_range rounds (port + 1) (add port ports)

-- `sort.Ints`
unfoldable pub insert_port : ℕ → List ℕ → List ℕ
insert_port x [] = x ∷ []
insert_port x (y ∷ ys) = let rest = insert_port x ys in if ltb y x then y ∷ rest else x ∷ y ∷ ys

unfoldable pub sort_ints : List ℕ → List ℕ
unfolding insert_port
sort_ints [] = []
sort_ints (x ∷ xs) = insert_port x (sort_ints xs)

-- What one part of the list says.
pub data PortPart : Type 0 where
  blank : PortPart
  bad : PortsError → PortPart
  span : ℕ → ℕ → PortPart
  one : ℕ → PortPart

-- `start < 1 || end > 65535 || start > end`, where both were read
unfoldable pub check_range : Bytes → Option ℤ → Option ℤ → PortPart
check_range part (some (pos start)) (some (pos end)) =
    if start == 0 || (ltb 65535 end || ltb end start)
    then bad (invalid_range part)
    else span start end
check_range part _ _ = bad (invalid_range part)

unfoldable pub check_port : Bytes → Option ℤ → PortPart
check_port part (some (pos port)) =
    if port == 0 || ltb 65535 port then bad (invalid_port part) else one port
check_port part _ = bad (invalid_port part)

unfoldable pub read_part : Bytes → PortPart
unfolding check_range check_port
read_part raw =
    let part = trim_space raw in
    if length part == 0 then blank else elim (cut b'-' part) [
      | none ↦ check_port part (atoi part)
      | some (lo, hi) ↦ check_range part (atoi (trim_space lo)) (atoi (trim_space hi))
    ]

-- The ports that a part adds
unfoldable pub add_part : PortPart → List ℕ → PortsResult
unfolding add_range add
add_part blank ports = ok ports
add_part (bad e) ports = err e
add_part (span start end) ports = ok (add_range (end + 1 - start) start ports)
add_part (one port) ports = ok (add port ports)

-- The loop over the parts
unfoldable pub add_parts : List Bytes → List ℕ → PortsResult
unfolding read_part add_part
add_parts [] ports = ok ports
add_parts (raw ∷ parts) ports = elim (add_part (read_part raw) ports) [
  | err e ↦ err e
  | ok more ↦ add_parts parts more
]

-- `portProfiles`
unfoldable pub port_profile : Bytes → Option (List ℕ)
port_profile name =
    if text_eq name (codes "web")
    then some (80 ∷ 443 ∷ 631 ∷ 8000 ∷ 8008 ∷ 8080 ∷ 8443 ∷ [])
    else if text_eq name (codes "windows")
    then some (135 ∷ 139 ∷ 445 ∷ 1433 ∷ 3389 ∷ 5985 ∷ 5986 ∷ [])
    else if text_eq name (codes "db")
    then some (1433 ∷ 3306 ∷ 5432 ∷ [])
    else none

unfoldable pub finish_ports : PortsResult → PortsResult
unfolding sort_ints
finish_ports (err e) = err e
finish_ports (ok []) = err no_port
finish_ports (ok (p ∷ ports)) = ok (sort_ints (p ∷ ports))

unfoldable pub parse_ports : (Bytes → Bytes) → List ℕ → Bytes → PortsResult
unfolding port_profile add_parts finish_ports sort_ints
parse_ports lower defaults raw =
    let input = trim_space raw in
    if length input == 0 || text_eq (lower input) (codes "common")
    then ok defaults
    else elim (port_profile (lower input)) [
      | some profile ↦ ok (sort_ints profile)
      | none ↦ finish_ports (add_parts (split b',' input) [])
    ]

-- `splitIPChunks`: the loop from `i` on, over what it has not yet cut. A chunk is not empty, so the
-- length of the list is fuel enough.
unfoldable pub cut_chunks {ℓ} : {A : Type ℓ} → ℕ → ℕ → List A → List (List A)
cut_chunks zero size ips = []
cut_chunks (suc fuel) size [] = []
cut_chunks (suc fuel) size (ip ∷ ips) =
    take size (ip ∷ ips) ∷ cut_chunks fuel size (drop size (ip ∷ ips))

-- The size is not negative where the program calls it.
unfoldable pub split_ip_chunks {ℓ} : {A : Type ℓ} → List A → ℕ → List (List A)
unfolding cut_chunks
split_ip_chunks ips size =
    if size == 0 || leb (length ips) size then ips ∷ [] else cut_chunks (length ips) size ips

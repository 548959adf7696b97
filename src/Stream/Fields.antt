-- ===== src/Stream/Fields.antt =====
-- What streamJSONMonitor says of a host.
use ipscry.Common.{ℕ, suc, ◌≡◌, refl, ◌≢◌, Option, some, List, [], ◌∷◌, map, Bytes}
use ipscry.Common.Text.{codes, text_eq}
use ipscry.Common.Int.{pos}
use ipscry.Common.Maps.{find, put}
use ipscry.Hosts.{HostResult, PortResult}
use ipscry.Stream.{
  FieldValue, text, number, Fields, put_all, emit, stream_port_fields, stream_host_fields,
  port_update, port_updates, stream_updates, stream_ready,
}

-- A field of each line
abbrev pub column : Bytes → List Fields → List (Option FieldValue)
column key lines = map (find key) lines

update-fields :
    (lower : Bytes → Bytes) (now : ℕ) (host : HostResult) (port : PortResult)
    → (find (codes "port") (port_update lower now host port) ≡ some (number (pos port.port)))
      × (find (codes "service_hint") (port_update lower now host port) ≡ some (text port.service))
      × (find (codes "hostname") (port_update lower now host port) ≡ some (text host.hostname))
unfolding port_update stream_port_fields stream_host_fields put_all emit find put text_eq
update-fields lower now host port = (refl, refl, refl)

-- The columns that a host's ports and its name fill
abbrev pub IsReport : HostResult → List PortResult → List Fields → Type 0
IsReport host ports lines =
    (column (codes "port") lines ≡ map (λ p. some (number (pos p.port))) ports)
    × (column (codes "service_hint") lines ≡ map (λ p. some (text p.service)) ports)
    × (column (codes "hostname") lines ≡ map (λ p. some (text host.hostname)) ports)

updates-IsReport :
    (lower : Bytes → Bytes) (now : ℕ → ℕ) (host : HostResult) (ports : List PortResult)
    → IsReport host ports (port_updates lower now host ports)
unfolding port_updates
updates-IsReport lower now host [] = (refl, refl, refl)
updates-IsReport lower now host (p ∷ ports) =
    let (a, b, c) = update-fields lower (now 0) host p in
    let (as', bs, cs) = updates-IsReport lower (λ i. now (suc i)) host ports in
    (cc (a, as'), cc (b, bs), cc (c, cs))

stream_updates-IsReport :
    (lower : Bytes → Bytes) (now : ℕ → ℕ) (host : HostResult) (ports : List PortResult)
    → ports ≢ []
    → IsReport host ports (stream_updates lower now host ports)
unfolding stream_updates
stream_updates-IsReport lower now host [] some_ = absurd (some_ refl)
stream_updates-IsReport lower now host (p ∷ ports) some_ =
    updates-IsReport lower now host (p ∷ ports)

-- Of a host with open ports HostReady writes one line for each, in their order: with the port's number,
-- with its service in place of the host's guess, and with the host's name.
pub stream_ready-IsReport :
    (lower : Bytes → Bytes) (now : ℕ → ℕ) (host : HostResult)
    → host.open_ports ≢ []
    → IsReport host host.open_ports (stream_ready lower now host)
unfolding stream_ready
stream_ready-IsReport lower now host some_ =
    stream_updates-IsReport lower now host host.open_ports some_

-- ===== src/Csv/Rows.antt =====
-- The shape of the CSV.
use ipscry.Common.{◌≡◌, refl, List, [], ◌∷◌, length, All, All-append, Bytes}
use ipscry.Hosts.{PortResult, HostResult}
use ipscry.Csv.{host_csv_row, csv_header, port_rows, host_rows, csv_rows, write_csv}

-- A row has a field for each column.
abbrev pub IsRow : List Bytes → Type 0
IsRow row = length row ≡ length csv_header

port_rows-IsRow :
    (host : HostResult) (ports : List PortResult) (format : Bytes)
    → All IsRow (port_rows host ports format)
unfolding port_rows host_csv_row csv_header
port_rows-IsRow host [] format = tt
port_rows-IsRow host (port ∷ ports) format = (refl, port_rows-IsRow host ports format)

host_rows-IsRow :
    (host : HostResult) (ports : List PortResult) (format : Bytes)
    → All IsRow (host_rows host ports format)
unfolding host_rows host_csv_row csv_header
host_rows-IsRow host [] format = (refl, tt)
host_rows-IsRow host (port ∷ ports) format = port_rows-IsRow host (port ∷ ports) format

csv_rows-IsRow : (hosts : List HostResult) (format : Bytes) → All IsRow (csv_rows hosts format)
unfolding csv_rows
csv_rows-IsRow [] format = tt
csv_rows-IsRow (host ∷ hosts) format =
    All-append IsRow (host_rows host host.open_ports format) (csv_rows hosts format)
      (host_rows-IsRow host host.open_ports format) (csv_rows-IsRow hosts format)

-- Every record of the CSV has a field for each column, and behind the header.
pub write_csv-IsRow :
    (hosts : List HostResult) (format : Bytes) → All IsRow (write_csv hosts format)
unfolding write_csv
write_csv-IsRow hosts format = (refl, csv_rows-IsRow hosts format)

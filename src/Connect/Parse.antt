-- ===== src/Connect/Parse.antt =====
-- ParseConnect of internal/connect/connect.go.
pub mod Words
pub mod Target
pub mod RoundTrip
use cc_mysub.Base.{Bytes, codes, equal, fields, List, [], ◌∷◌, Option, none, some, if◌then◌else◌}
use cc_mysub.Connect.Address.{valid_host}
use cc_mysub.Connect.HostPort.{split_host_port}

abbrev pub connect_word : Bytes
connect_word = codes "CONNECT"

abbrev accept_host : Option (Bytes × Bytes) → Option Bytes
accept_host none = none
accept_host (some (host, port)) = if valid_host host then some host else none

-- On the fields of the line.
unfoldable pub connect_fields : List Bytes → Option Bytes
unfolding equal split_host_port valid_host
connect_fields (method ∷ target ∷ more) =
    if equal method connect_word then accept_host (split_host_port target) else none
connect_fields _ = none

unfoldable pub parse_connect : Bytes → Option Bytes
unfolding connect_fields fields
parse_connect line = connect_fields (fields line)

-- ===== src/Egress/Inventory.antt =====
-- main of ci/egress/collector/main.go: the connections counted by the host of their ClientHello. Each
-- connection is one step, since it holds the lock while it changes the map; the time of the first one,
-- which nothing reads, is left out.
pub mod Counts
use cc_mysub.Base.{
  ℕ, zero, suc, Bytes, codes, Bool, true, false, is_empty, equal, Dict, lookup, insert, take, List,
  [], ◌∷◌, Option, none, some, map, if◌then◌else◌,
}
use cc_mysub.Collector.{Found, parse_sni}
use cc_mysub.Egress.Sorting.{sort}
use cc_mysub.Egress.Keys.{keys}

-- The first read takes at most this many bytes.
abbrev pub buffer_size : ℕ
buffer_size = 4096

abbrev pub unknown : Bytes
unknown = codes "unknown-sni"

abbrev pub named : Found → Bytes
named none = unknown
named (some none) = unknown
named (some (some host)) = if is_empty host then unknown else host

unfoldable pub host_of : Bytes → Bytes
unfolding parse_sni is_empty
host_of packet = named (parse_sni (take buffer_size packet))

abbrev pub count_of : Option ℕ → ℕ
count_of none = 0
count_of (some n) = n

-- seen[host].count++, which makes the entry first if there is none.
unfoldable pub see : Bytes → Dict ℕ → Dict ℕ
unfolding lookup insert
see host seen = insert host (suc (count_of (lookup host seen))) seen

unfoldable pub see_all : List Bytes → Dict ℕ → Dict ℕ
unfolding see
see_all [] seen = seen
see_all (host ∷ hosts) seen = see_all hosts (see host seen)

abbrev pub line_of : Dict ℕ → Bytes → Bytes × ℕ
line_of seen host = (host, count_of (lookup host seen))

-- The lines that are printed on a signal.
unfoldable pub report : Dict ℕ → List (Bytes × ℕ)
unfolding sort
report seen = map (line_of seen) (sort (keys seen))

-- The connections, in the order in which their goroutines take the lock.
unfoldable pub inventory : List Bytes → List (Bytes × ℕ)
unfolding report see_all host_of
inventory packets = report (see_all (map host_of packets) [])

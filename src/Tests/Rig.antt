-- ===== src/Tests/Rig.antt =====
-- Tests of the programs of ci/egress.
use cc_mysub.Base.{ℕ, Bytes, codes, true, equal, map, [], ◌∷◌, ◌≡◌, refl}
use cc_mysub.Egress.Inventory.{host_of, report, see_all, inventory}
use cc_mysub.Egress.Inventory.Counts.{count, inventory_same}
use cc_mysub.Egress.Diag
use cc_mysub.Egress.Mock.{Request, serve_all, printed}

report_lines :
    report (see_all (codes "b" ∷ codes "a" ∷ codes "b" ∷ []) [])
    ≡ (codes "a", 1) ∷ (codes "b", 2) ∷ []
unfolding report see_all equal
report_lines = refl

abbrev noise : Bytes
noise = codes "GET / HTTP/1.1"

same_counts :
    (h : Bytes) → count h (map host_of (noise ∷ [] ∷ [])) ≡ count h (map host_of ([] ∷ noise ∷ []))
unfolding host_of
same_counts h = refl

swapped_lines : inventory (noise ∷ [] ∷ []) ≡ inventory ([] ∷ noise ∷ [])
swapped_lines = inventory_same (noise ∷ [] ∷ []) ([] ∷ noise ∷ []) same_counts

abbrev request : Bytes → Request
request a = record { path = codes "/v1/messages"; authorization = a; body = [] }

printed_once :
    printed (
      serve_all
        (record { auths = [] })
        (request (codes "b") ∷ request [] ∷ request (codes "a") ∷ request (codes "b") ∷ []))
    ≡ codes "a" ∷ codes "b" ∷ []
unfolding printed serve_all equal
printed_once = refl

abbrev asked : Bytes → Bytes → Diag.Request
asked host body = record {
  host = host;
  method = codes "GET";
  path = codes "/";
  authorization = [];
  api_key = [];
  encoding = [];
  content_type = [];
  body = body;
}

hits_printed :
    map {B = Bytes × ℕ}
      (λ (l : Bytes × Diag.Hit). (l.0, l.1.count))
      (Diag.printed
        (Diag.handle_all true
          (asked (codes "b") [] ∷ asked (codes "a") [] ∷ asked (codes "b") (codes "x") ∷ [])
          (record { hits = []; seq = 0; dumps = [] })).hits)
    ≡ (codes "a GET /", 1) ∷ (codes "b GET /", 2) ∷ []
unfolding Diag.printed Diag.handle_all equal
hits_printed = refl

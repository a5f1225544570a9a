-- ===== src/Connect/Parse/Target.antt =====
-- The CONNECT line that the splitter writes, read by ParseConnect of the proxy.
use cc_mysub.Base.{
  Bytes, codes, equal, fields, List, [], ◌∷◌, ◌++◌, none, some, All, ◌≡◌, refl, ap, ◌∙◌, arith,
  Bool-cases, inl, inr,
}
use cc_mysub.Connect.Parse.{connect_word, connect_fields, parse_connect}
use cc_mysub.Connect.Parse.Words.{IsField, fields-IsField, fields_word}

-- strings.Fields(line)[1], where the line has two fields.
abbrev pub second : List Bytes → Bytes
second (a ∷ b ∷ more) = b
second _ = []

unfoldable pub target_of : Bytes → Bytes
unfolding fields
target_of line = second (fields line)

-- "CONNECT " + target + " HTTP/1.1\r\n"
abbrev pub connect_line : Bytes → Bytes
connect_line target = connect_word ++ b' ' ∷ (target ++ b' ' ∷ codes "HTTP/1.1\r\n")

connect_word-IsField : IsField connect_word
unfolding fields
connect_word-IsField = ((λ e. cc), omega arith)

fields_version : fields (codes "HTTP/1.1\r\n") ≡ codes "HTTP/1.1" ∷ []
unfolding fields
fields_version = refl

pub fields-connect_line :
    (target : Bytes)
    → IsField target
    → fields (connect_line target) ≡ connect_word ∷ target ∷ codes "HTTP/1.1" ∷ []
fields-connect_line target h =
    fields_word connect_word _ connect_word-IsField
    ∙ ap (◌∷◌ connect_word) (fields_word target _ h ∙ ap (◌∷◌ target) fields_version)

none≢some : {A : Type 0} {a : A} → none ≡ some a → ⊥
none≢some e = cc

connect_fields-second :
    (fs : List Bytes) (host : Bytes) (v : Bytes)
    → connect_fields fs ≡ some host
    → All IsField fs
    → (connect_fields (connect_word ∷ second fs ∷ v ∷ []) ≡ some host) × IsField (second fs)
unfolding connect_fields
connect_fields-second [] host v h k = absurd (ground arith)
connect_fields-second (m ∷ []) host v h k = absurd (ground arith)
connect_fields-second (m ∷ t ∷ more) host v h k = elim (Bool-cases (equal m connect_word)) [
  | inl e ↦ (rw e at h, k.1.0)
  | inr e ↦ absurd (none≢some (rw e at h))
]

-- If parseConnect gives a host for a line, it gives the same host for the CONNECT line that the
-- splitter makes of that line's target.
pub parse_connect-connect_line :
    (line host : Bytes)
    → parse_connect line ≡ some host
    → parse_connect (connect_line (target_of line)) ≡ some host
unfolding parse_connect target_of
parse_connect-connect_line line host h =
    let (e, f) =
      connect_fields-second (fields line) host (codes "HTTP/1.1") h (fields-IsField line) in
    ap connect_fields (fields-connect_line (second (fields line)) f) ∙ e

pub target_of-IsField :
    (line host : Bytes) → parse_connect line ≡ some host → IsField (target_of line)
unfolding parse_connect target_of
target_of-IsField line host h =
    (connect_fields-second (fields line) host (codes "HTTP/1.1") h (fields-IsField line)).1

-- ===== src/Mitm/Cache.antt =====
-- What the cache of internal/mitm/mint.go hands out.
use cc_mysub.Base.{
  ℕ, ◌+◌, ◌≤◌, Bytes, false, ltb, ltb→lt, is_empty, Bool-cases, Result, ok, err, lookup, insert,
  lookup-insert, equal, equal_iff, equal_refl, Option, none, some, [], ◌∷◌, ◌≡◌, inl, inr, refl,
  sym, subst, arith,
}
use cc_mysub.Mitm.{
  minute, Template, Cert, Signer, Entry, Minter, new_minter, Error, template, mint, stored, cached,
  cert_for,
}

-- A certificate for this host and nothing else, valid from before `start` until after `end`.
abbrev pub Covers : Bytes → ℕ → ℕ → Cert → Type 0
Covers host start end c =
    (c.leaf.dns_names ≡ host ∷ [])
    × (c.leaf.is_ca ≡ false)
    × (c.leaf.not_before ≤ start)
    × (end + minute ≤ c.leaf.not_after)

abbrev Fresh : ℕ → Bytes → Option Entry → Type 0
Fresh now host none = Unit
Fresh now host (some e) = Covers host now e.expiry e.cert

-- A cache as the calls up to that time leave it.
pub record IsValid (now : ℕ) (m : Minter) : Type 0 where
  pub entries : (host : Bytes) → Fresh now host (lookup host m.cache)

pub new_minter-IsValid : (now ttl : ℕ) → IsValid now (new_minter ttl)
unfolding lookup
new_minter-IsValid now ttl = record { entries = λ host. tt }

Fresh-later :
    (t now : ℕ) (host : Bytes) (o : Option Entry) → t ≤ now → Fresh t host o → Fresh now host o
Fresh-later t now host none h f = tt
Fresh-later t now host (some e) h (d, c, b, a) = (d, c, omega arith, a)

IsValid-later : (t now : ℕ) (m : Minter) → t ≤ now → IsValid t m → IsValid now m
IsValid-later t now m h v = record {
  entries = λ host. Fresh-later t now host (lookup host m.cache) h (v.entries host);
}

insert-IsValid :
    (now : ℕ) (m : Minter) (host : Bytes) (e : Entry)
    → IsValid now m
    → Covers host now e.expiry e.cert
    → IsValid now (record m { cache = insert host e m.cache })
insert-IsValid now m host e v c = record {
  entries = λ k. elim (Bool-cases (equal host k)) [
    | inl p ↦
        subst (λ j. Fresh now j (lookup j (insert host e m.cache))) ((equal_iff host k).0 p)
          (rw (lookup-insert host host e m.cache, equal_refl host) c)
    | inr p ↦ rw (lookup-insert host k e m.cache, p) (v.entries k)
  ];
}

-- The answer, and the cache behind it.
abbrev pub Answers : Minter → Bytes → ℕ → Minter × Result Error Cert → Type 0
Answers m host now (m', err e) = m' ≡ m
Answers m host now (m', ok c) = Covers host now now c × IsValid now m'

stored-Answers :
    (signer : Signer) (m : Minter) (host : Bytes) (now : ℕ) (o : Option Cert)
    → IsValid now m
    → mint signer m.ttl host now ≡ o
    → Answers m host now (stored m host now o)
unfolding stored mint
stored-Answers signer m host now none v e = refl
stored-Answers signer m host now (some c) v e =
    let k : Covers host now (now + m.ttl) c =
      subst
        (λ (t : Template).
          (t.dns_names ≡ host ∷ [])
          × (t.is_ca ≡ false)
          × (t.not_before ≤ now)
          × ((now + m.ttl) + minute ≤ t.not_after))
        (sym (signer.sign-leaf (template m.ttl host now) c e))
        (refl, refl, omega arith, omega arith) in
    let (d, b, f, a) = k in
    (
      (d, b, f, omega arith),
      insert-IsValid now m host (record { cert = c; expiry = now + m.ttl }) v k,
    )

cached-Answers :
    (signer : Signer) (m : Minter) (host : Bytes) (now : ℕ) (o : Option Entry)
    → IsValid now m
    → Fresh now host o
    → Answers m host now (cached signer m host now o)
unfolding cached
cached-Answers signer m host now none v f =
    stored-Answers signer m host now (mint signer m.ttl host now) v refl
cached-Answers signer m host now (some e) v (d, c, b, a) = elim (Bool-cases (ltb now e.expiry)) [
  | inl h ↦ rw h ((d, c, b, omega (arith, ltb→lt now e.expiry h)), v)
  | inr h ↦ rw h (stored-Answers signer m host now (mint signer m.ttl host now) v refl)
]

-- With a cache as the calls up to some time leave it, and a clock that is not behind that time, CertFor
-- either fails and leaves the cache as it was, or gives a certificate that is not a CA, names exactly
-- the host, and is valid from now, or before, until a minute from now, or later; then the cache is
-- again as the calls up to now leave it.
pub cert_for-Answers :
    (signer : Signer) (m : Minter) (host : Bytes) (t now : ℕ)
    → t ≤ now
    → IsValid t m
    → Answers m host now (cert_for signer m host now)
unfolding cert_for
cert_for-Answers signer m host t now h v = elim (Bool-cases (is_empty host)) [
  | inl e ↦ rw e refl
  | inr e ↦
      let u = IsValid-later t now m h v in
      rw e (cached-Answers signer m host now (lookup host m.cache) u (u.entries host))
]

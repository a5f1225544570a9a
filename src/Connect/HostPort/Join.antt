-- ===== src/Connect/HostPort/Join.antt =====
-- SplitHostPort takes a host and a port apart as they were joined.
use cc_mysub.Base.{
  ℕ, Bytes, false, ◌||◌, ◌==◌, ==_refl, [], ◌∷◌, ◌++◌, none, some, ◌≡◌, ◌≢◌, refl, arith,
}
use cc_mysub.Connect.HostPort.{
  has_byte, last_at, split_last, begins_with, at_colon, plain, split_host_port,
}

has_byte-append : (b : ℕ) (s t : Bytes) → has_byte b (s ++ t) ≡ (has_byte b s || has_byte b t)
unfolding has_byte
has_byte-append b [] t = refl
has_byte-append b (c ∷ s) t = ground (arith, has_byte-append b s t)

-- No ':', '[' or ']'.
pub record IsClear (s : Bytes) : Type 0 where
  pub colon : has_byte b':' s ≡ false
  pub open_bracket : has_byte b'[' s ≡ false
  pub close_bracket : has_byte b']' s ≡ false

pub IsClear-nil : IsClear []
unfolding has_byte
IsClear-nil = record { colon = refl; open_bracket = refl; close_bracket = refl }

pub IsClear-cons :
    (c : ℕ) (s : Bytes)
    → (c == b':') ≡ false
    → (c == b'[') ≡ false
    → (c == b']') ≡ false
    → IsClear s
    → IsClear (c ∷ s)
unfolding has_byte
IsClear-cons c s x y z h = ground arith

split_last-none : (b : ℕ) (t : Bytes) → has_byte b t ≡ false → split_last b t ≡ none
unfolding has_byte split_last
split_last-none b [] h = refl
split_last-none b (c ∷ t) h = ground (arith, split_last-none b t)

split_last-append :
    (b : ℕ) (s t : Bytes) → has_byte b t ≡ false → split_last b (s ++ b ∷ t) ≡ some (s, t)
unfolding split_last
split_last-append b [] t h = rw (split_last-none b t h, last_at, ==_refl b)
split_last-append b (c ∷ s) t h = rw (split_last-append b s t h)

begins_with-append :
    (host t : Bytes) → host ≢ [] → has_byte b'[' host ≡ false → begins_with b'[' (host ++ t) ≡ false
unfolding has_byte
begins_with-append [] t n h = absurd (n refl)
begins_with-append (c ∷ s) t n h = ground arith

plain_join :
    (host port : Bytes)
    → IsClear host
    → IsClear port
    → plain (host ++ b':' ∷ port) host port ≡ some (host, port)
unfolding plain has_byte
plain_join host port h p =
    ground (arith, has_byte-append b'[' host (b':' ∷ port), has_byte-append b']' host (b':' ∷ port))

pub split_host_port-join :
    (host port : Bytes)
    → host ≢ []
    → IsClear host
    → IsClear port
    → split_host_port (host ++ b':' ∷ port) ≡ some (host, port)
unfolding split_host_port
split_host_port-join host port n h p =
    rw
      (
        split_last-append b':' host port p.colon,
        at_colon,
        begins_with-append host (b':' ∷ port) n h.open_bracket,
      )
      (plain_join host port h p)

-- ===== src/Proxy/Session/Revoked.antt =====
-- From a rotation to the proxy: the old certificate opens nothing.
use cc_mysub.Base.{
  ℕ, suc, ◌<◌, Bytes, true, Result, ok, All, List, [], Option, some, ◌≡◌, ◌≢◌, ◌⊎◌, ap, ◌∙◌,
}
use cc_mysub.Auth.Token.{Sha256, cert_fingerprint}
use cc_mysub.Auth.Store.{Device, DeviceStore, Disk, lookup_device}
use cc_mysub.Auth.Store.Watch.{quiet}
use cc_mysub.Config.{ClientConfig, Upstream}
use cc_mysub.Enroll.{Error, File, content}
use cc_mysub.Enroll.Devices.{Codec, old_rows}
use cc_mysub.Enroll.Run.{Dir, Host, Flags, run}
use cc_mysub.Enroll.Run.Access.{rotate_revokes}
use cc_mysub.Mitm.{Signer, Minter, Cert}
use cc_mysub.Proxy.Handle.{ForwardProxy, Conn, closed}
use cc_mysub.Proxy.Handle.Refusals.{handle-unknown}
use cc_mysub.Proxy.Handle
use cc_mysub.Proxy.Usage.{Usage}
use cc_mysub.Proxy.Chain.{Request, Response, Net, World}
use cc_mysub.Proxy.Session.{tunnelled, serve_conn}

module _ (sha : Sha256) (pem_decode : Bytes → Option Bytes) (codec : Codec) (host : Host)
    (flags : Flags) (cfg : Result Error (Option ClientConfig)) (cert : File) (dir : Dir)
    (fp b : Bytes) (done : (run sha pem_decode codec host flags cfg cert dir).1 ≡ ok fp)
    (devices : (run sha pem_decode codec host flags cfg cert dir).0.devices ≡ content b)
    (disk : Disk) (mtime : ℕ) (stat : disk.stat ≡ some mtime) (content_now : disk.content ≡ some b)
    (s : DeviceStore) (n : ℕ) (newer : s.last_mod < mtime) where
  module _ (up : Upstream) (net : Net) (usage : Response → Usage) (signer : Signer) (now : ℕ)
      (inner : Bytes → Cert → List (ℕ × Request)) (proxy : ForwardProxy)
      (polled : proxy.auth ≡ quiet codec.decode (suc n) disk s) where
    -- After a rotation that succeeded, with a fingerprint other than that of an old certificate: if
    -- among the old rows only those of the label have the old certificate's fingerprint, and a proxy
    -- polls the file that was written, with a later time than the last one it loaded, then, after the
    -- first tick or any number of further ones, a connection with the old certificate is closed without
    -- an answer, and changes neither the certificates minted nor the buckets, the log and the requests
    -- sent.
    pub rotated_refused :
        (conn : Conn) (m : Minter) (w : World) (der : Bytes) (rows : List Device)
        → flags.rotate ≡ true
        → old_rows codec dir.devices ≡ ok rows
        → fp ≢ cert_fingerprint sha der
        → All
            (λ (d : Device).
              (d.label ≡ flags.params.label) ⊎ (d.cert_sha256 ≢ cert_fingerprint sha der))
            rows
        → conn.cert ≡ some der
        → (Handle.handle sha proxy conn ≡ closed [])
          × (serve_conn up net usage signer now inner sha proxy conn m w ≡ (m, w))
    unfolding serve_conn tunnelled
    rotated_refused conn m w der rows rot r differs gone k =
        let refused =
          rotate_revokes sha pem_decode codec host flags cfg cert dir fp b done devices disk mtime
            stat content_now s n newer (cert_fingerprint sha der) rows rot r differs gone in
        let shut =
          handle-unknown sha proxy conn der k
            (ap (λ a. lookup_device a (cert_fingerprint sha der)) polled ∙ refused) in
        (shut, ap (tunnelled up net usage signer now inner m w) shut)

-- ===== src/Server/Serve/Probed.antt =====
-- daemon/crates/kpk-spike/src/server.rs: a probe, which stands in for the PAM module, at the socket of
-- `serve`.
use kpasskey.Base.{ℕ, ◌≡◌, refl, ◌∙◌, Option, some, List, ◌∷◌, ◌++◌, String}
use kpasskey.Base.Errors.{ok, unwrap_or}
use kpasskey.External.{Json, JsonLaws, Crypto, Base64}
use kpasskey.Fidolink.{Exchange}
use kpasskey.Store.{Entry}
use kpasskey.Server.Pam.{verifying, reply_on, printed, probe_request, probe}
use kpasskey.Server.Pam.Clients.{ReadsBack, route-probe_request, read_request-printed}
use kpasskey.Server.Pam.Verdicts.{answering, probe-approved}
use kpasskey.Server.Serve.{
  Startup, Draws, Happening, pam_read, going, Served, opened, serving, serve,
}
use kpasskey.Server.Serve.Asked.{Asking}
use kpasskey.Server.Serve.Moments.{next_of}
use kpasskey.Server.Serve.Approved.{IsApproved, serve-IsApproved}

module _ (j : Json) (laws : JsonLaws j) (c : Crypto) (b : Base64) (path : String) where
  open j use {Value}

  -- The line that a probe sends.
  abbrev pub probe_line : Option String → String → String → String
  probe_line user action detail =
      printed j c b (probe_request j c b (unwrap_or "unknown" user) action detail)

  -- The reading of that line, on a connection whose peer is known.
  abbrev pub probing :
      ℕ
      → Option String
      → String
      → String
      → Draws
      → List Happening
      → List Happening
      → Served j c b path
      → Asking j c b path
  probing peer_uid user action detail draws later before s = record {
    peer_uid = ok peer_uid;
    line = ok (probe_line user action detail);
    draws = draws;
    call = record { user = unwrap_or "unknown" user; action = action; detail = detail };
    later = later;
    before = before;
    state = s;
  }

  -- If serde_json finds the fields of the objects that `json!` builds: when `serve` has read the line of
  -- a probe, the probe is answered with the reply on the connection that this reading began,
  -- both lines read back as their values, and the probe succeeds, then the approval stands on a request
  -- with just the probe's user, action and detail, whose line was written to the phone, and on a line
  -- of the phone with that request's id, no denial, and a signature over the very line that was written,
  -- which the key of the device verifies that was stored first when the probe was read.
  pub probe-IsApproved :
      (socket_path : String) (port timeout_secs : ℕ) (startup : Startup) (files : List Entry)
      (t s : Served j c b path) (later before : List Happening) (peer_uid : ℕ) (draws : Draws)
      (daemon : String → Exchange) (user : Option String) (action detail : String) (value : Value)
      → serve j c b path socket_path port timeout_secs startup files
          (later ++ (pam_read (ok peer_uid) (ok (probe_line user action detail)) draws ∷ before))
        ≡ going t
      → serving j c b path (opened j c b path timeout_secs files) before ≡ going s
      → ReadsBack j laws (probe_request j c b (unwrap_or "unknown" user) action detail)
      → reply_on j c b (verifying (next_of j c b path s)) t.desk.daemon ≡ some value
      → ReadsBack j laws value
      → daemon (probe_line user action detail) ≡ answering j laws c b (printed j c b value)
      → probe j c b daemon socket_path user action detail ≡ ok tt
      → IsApproved j c b path
          (later ++ (pam_read (ok peer_uid) (ok (probe_line user action detail)) draws ∷ before))
          t.desk.sent
          (probing peer_uid user action detail draws later before s)
  probe-IsApproved socket_path port timeout_secs startup files t s later before peer_uid draws
        daemon user action detail value now then_ asked replied back answered succeeded =
      let request = probe_request j c b (unwrap_or "unknown" user) action detail in
      serve-IsApproved j c b path socket_path port timeout_secs startup files
        (later ++ (pam_read (ok peer_uid) (ok (probe_line user action detail)) draws ∷ before)) t
        (probing peer_uid user action detail draws later before s) now
        (
          refl,
          then_,
          read_request-printed j laws c b peer_uid request asked
              ∙ route-probe_request j laws c b (unwrap_or "unknown" user) action detail,
        )
        (probe-approved j laws c b (next_of j c b path s) value t.desk.daemon daemon socket_path
          user action detail replied back answered succeeded)

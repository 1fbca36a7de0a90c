-- ===== src/Server/Serve/Asked.antt =====
-- daemon/crates/kpk-spike/src/server.rs: the request on the socket that a verification was begun for.
use kpasskey.Base.{ℕ, ◌≡◌, ap, List, ◌∷◌, ◌++◌, String}
use kpasskey.Base.Errors.{Result, ok, ◌>>◌}
use kpasskey.External.{Json, Crypto, Base64}
use kpasskey.Protocol.{VerifyRequest, new_request}
use kpasskey.Store.{Device}
use kpasskey.Server.{active_key}
use kpasskey.Server.Events.{Call}
use kpasskey.Server.Pam.{verify, read_request}
use kpasskey.Server.Serve.{Draws, Happening, pam_read, going, Served, serving}

module _ (j : Json) (c : Crypto) (b : Base64) (path : String) where
  open c use {VerifyingKey}

  -- The reading of a request for a verification, among what has happened: what was read, what the
  -- system gave, and the state at that moment.
  pub record Asking : Type 0 where
    pub peer_uid : Result ℕ
    pub line : Result String
    pub draws : Draws
    pub call : Call
    pub later : List Happening
    pub before : List Happening
    pub state : Served j c b path

  -- It took place.
  abbrev pub TookPlace : Served j c b path → List Happening → Asking → Type 0
  TookPlace start past a =
      (past ≡ a.later ++ (pam_read a.peer_uid a.line a.draws ∷ a.before))
      × (serving j c b path start a.before ≡ going a.state)
      × (read_request j c b a.peer_uid a.line ≡ ok (verify a.call.user a.call.action a.call.detail))

  -- The task was begun for this request: the device and its key are those that were stored first at
  -- that moment, and the request that is signed says what was asked.
  abbrev pub IsBegunFor : Asking → ℕ → Device → VerifyingKey → VerifyRequest → Type 0
  IsBegunFor a task device key request =
      (a.state.desk.daemon.next_task ≡ task)
      × (active_key j c b path (a.draws.read_dir >> ok a.state.desk.files) ≡ ok (device, key))
      × (new_request a.state.desk.daemon.next_id a.call.user a.call.action a.call.detail
            a.draws.challenge a.draws.host
          ≡ ok request)

  abbrev pub IsAskedFor :
      Served j c b path → List Happening → ℕ → Device → VerifyingKey → VerifyRequest → Type 0
  IsAskedFor start past task device key request =
      (a : Asking) × TookPlace start past a × IsBegunFor a task device key request

  pub later-IsAskedFor :
      (start : Served j c b path) (h : Happening) (past : List Happening) (task : ℕ)
      (device : Device) (key : VerifyingKey) (request : VerifyRequest)
      → IsAskedFor start past task device key request
      → IsAskedFor start (h ∷ past) task device key request
  later-IsAskedFor start h past task device key request (a, (split, now, read), begun) =
      (record a { later = h ∷ a.later }, (ap (◌∷◌ h) split, now, read), begun)

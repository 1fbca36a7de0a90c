-- ===== src/Main/Dispatch.antt =====
-- daemon/crates/kpk-spike/src/main.rs: `main`, which hands the command to the other parts of the program.
use kpasskey.Base.{ℕ, ◌^◌, ◌<◌, ◌≡◌, ap, List, [], ◌∷◌, String}
use kpasskey.Base.Text.{decimal}
use kpasskey.Base.Errors.{Result, ok, context, ◌>>=◌, ◌>>◌}
use kpasskey.Main.{Command, serve, import, probe, self_test, uhid, parse_args}
use kpasskey.Main.Printing.{arguments, IsInRange, parse_args-arguments}

-- What each command runs, by what it returns.
pub record Programs : Type 0 where
  pub server_serve : (devices socket : String) (port timeout_secs : ℕ) → Result (Unit {0})
  pub server_import : (devices pubkey name model : String) → Result (Unit {0})
  pub server_probe : (socket action detail : String) → Result (Unit {0})
  pub server_self_test : Result (Unit {0})
  pub uhid_run : Result (Unit {0})

unfoldable pub run_command : Programs → Command → Result (Unit {0})
run_command p (serve devices socket port timeout_secs) =
    p.server_serve devices socket port timeout_secs
run_command p (import devices pubkey name model) = p.server_import devices pubkey name model
run_command p (probe socket action detail) = p.server_probe socket action detail
run_command p self_test = p.server_self_test
run_command p uhid = p.uhid_run

-- `runtime` is what building the tokio runtime brings.
unfoldable pub main : String → Result (Unit {0}) → Programs → List String → Result (Unit {0})
main device_dir runtime p args = do
  command ← parse_args device_dir args
  context "building the tokio runtime" runtime
  run_command p command

main-command :
    (device_dir : String) (p : Programs) (command : Command)
    → IsInRange command
    → main device_dir (ok tt) p (arguments command) ≡ run_command p command
unfolding main
main-command device_dir p command fits =
    ap (λ parsed. parsed >>= λ c. context "building the tokio runtime" (ok tt) >> run_command p c)
      (parse_args-arguments device_dir command fits)

-- If the runtime can be built, of a program that is given one of these argument lists: `serve` serves
-- the directory of --devices on the socket of --socket, with the port of --port, a u16, and the waiting
-- time of --timeout, a u64; `import` stores the key of --pubkey in the directory of --devices under the
-- name of --action and the model of --detail; `probe` asks on the socket of --socket about the action of
-- --action with the detail of --detail; `self-test` runs the self test and `uhid` the authenticator.
pub main-arguments :
    (device_dir : String) (p : Programs) (a b c : String) (port timeout_secs : ℕ)
    → port < 2 ^ 16
    → timeout_secs < 2 ^ 64
    → (main device_dir (ok tt) p (
          "serve"
          ∷ "--devices"
          ∷ a
          ∷ "--socket"
          ∷ b
          ∷ "--port"
          ∷ decimal port
          ∷ "--timeout"
          ∷ decimal timeout_secs
          ∷ [])
        ≡ p.server_serve a b port timeout_secs)
      × ((pubkey : String)
          → main device_dir (ok tt) p (
              "import" ∷ "--devices" ∷ a ∷ "--pubkey" ∷ pubkey ∷ "--action" ∷ b ∷ "--detail" ∷ c
              ∷ [])
            ≡ p.server_import a pubkey b c)
      × (main device_dir (ok tt) p ("probe" ∷ "--socket" ∷ a ∷ "--action" ∷ b ∷ "--detail" ∷ c ∷ [])
          ≡ p.server_probe a b c)
      × (main device_dir (ok tt) p ("self-test" ∷ []) ≡ p.server_self_test)
      × (main device_dir (ok tt) p ("uhid" ∷ []) ≡ p.uhid_run)
unfolding run_command
main-arguments device_dir p a b c port timeout_secs port_fits timeout_fits = (
  main-command device_dir p (serve a b port timeout_secs) (port_fits, timeout_fits),
  λ pubkey. main-command device_dir p (import a pubkey b c) tt,
  main-command device_dir p (probe a b c) tt,
  main-command device_dir p self_test tt,
  main-command device_dir p uhid tt,
)

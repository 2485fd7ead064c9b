-- ===== src/Tunnel.antt =====
-- server/tun.h and server/tun.cpp: the tunnel that the client opens with its option via. The
-- options, the sockets, the environment and the shell are arguments.
pub mod Address
use device.Base.{
  ℕ, ◌==◌, [], ◌++◌, if◌then◌else◌, Bytes, text, Result, ok, err, crash, Exec, continue, ◌>>=◌,
  ◌>>◌,
}
use device.Driver.Setup.{Options}

-- What system gives: -1 with the text of errno, or the status of the shell.
pub data Shell : Type 0 where
  no_shell : Bytes → Shell
  exited : ℕ → Shell

-- `err` has the text of errno.
pub record TunnelLibs (F World : Type 0) : Type 0 where
  -- an int of an option, printed, with its default
  pub get_shown : Bytes → ℕ → Options F → Result Bytes
  pub socket : World → Result ℕ × World
  -- to any address and port 0
  pub bind : ℕ → World → Result (Unit {0}) × World
  -- the port in the order of the host
  pub getsockname : ℕ → World → Result ℕ × World
  pub close_socket : ℕ → World → World
  pub show : ℕ → Bytes
  -- setenv(name, value, 1)
  pub setenv : Bytes → Bytes → World → World
  pub system : Bytes → World → Shell × World

module _ {F World : Type 0} (libs : TunnelLibs F World) where
  unfoldable pub with_errno : {A : Type 0} → Bytes → Result A × World → Result A × World
  with_errno what (ok a, w) = (ok a, w)
  with_errno what (err e, w) = (err (what ++ e), w)
  with_errno what (crash, w) = (crash, w)

  port_closed : ℕ → ℕ → Exec World ℕ
  port_closed sock port w = (ok port, libs.close_socket sock w)

  unfoldable pub find_free_port : Exec World ℕ
  unfolding with_errno port_closed
  find_free_port = do
    sock ← (λ w. with_errno (text "FindFreePort: unable to create socket: ") (libs.socket w))
    λ w. with_errno (text "FindFreePort: unable find free port: ") (libs.bind sock w)
    port ← (λ w.
        with_errno (text "FindFreePort: unable to get port number: ") (libs.getsockname sock w))
    port_closed sock port

  run_shell : Bytes → Shell × World → Result Bytes × World
  run_shell name (no_shell e, w) = (err (text "can't make -via tunnel: " ++ e), w)
  run_shell name (exited n, w) =
      ((if n == 0 then ok name else err (text "can't make -via tunnel")), w)

  -- The four variables that the command has.
  unfoldable pub set_variables : Bytes → Bytes → Bytes → Bytes → World → World
  set_variables via srv rport lport w =
      libs.setenv (text "L") lport
        (libs.setenv (text "R") rport (libs.setenv (text "H") srv (libs.setenv (text "G") via w)))

  given : {A : Type 0} → Result A → Exec World A
  given r w = (r, w)

  unfoldable pub create_tunnel : Options F → Exec World Bytes
  unfolding find_free_port run_shell set_variables given
  create_tunnel o = do
    let cmd =
        o.get (text "via_cmd") (text "/usr/bin/ssh -f -L \"$L\":\"$H\":\"$R\" \"$G\" sleep 20")
    let via = o.get (text "via") []
    let srv = o.get (text "server") (text "localhost")
    rport ← given (libs.get_shown (text "port") 8082 o)
    lport ← find_free_port
    λ w.
        run_shell (srv ++ (text ":" ++ libs.show lport))
          (libs.system cmd (set_variables via srv rport (libs.show lport) w))

-- ===== src/Tunnel/Address.antt =====
-- server/tun.cpp and server/device_c.cpp: where the client connects to with the option via.
use device.Base.{ℕ, ◌≡◌, refl, true, [], ◌++◌, List, Bytes, text, ok}
use device.Client.{Curl}
use device.Client.Main.{Outside, outside, server_url}
use device.Driver.Setup.{Options}
use device.Tunnel.{TunnelLibs, exited, find_free_port, set_variables, create_tunnel}

module _ {F World : Type 0} (libs : TunnelLibs F World) where
  create_tunnel-opened :
      (o : Options F) (rport : Bytes) (lport : ℕ) (w w' w'' : World)
      → libs.get_shown (text "port") 8082 o ≡ ok rport
      → find_free_port libs w ≡ (ok lport, w')
      → libs.system
          (o.get (text "via_cmd") (text "/usr/bin/ssh -f -L \"$L\":\"$H\":\"$R\" \"$G\" sleep 20"))
          (set_variables libs
            (o.get (text "via") [])
            (o.get (text "server") (text "localhost"))
            rport
            (libs.show lport)
            w')
        ≡ (exited 0, w'')
      → create_tunnel libs o w
        ≡ (ok (o.get (text "server") (text "localhost") ++ (text ":" ++ libs.show lport)), w'')
  unfolding create_tunnel
  create_tunnel-opened o rport lport w w' w'' p f s = rw (p, f, s) refl

  -- With the option via, and a tunnel that opens, the client connects to the host of the option
  -- server at the port of this machine that was free: the host stays the remote one, though the
  -- tunnel listens here.
  pub via_address :
      (curl : Curl World) (join_words : List Bytes → Bytes) (out : Outside F World) (o : Options F)
      (port rport printed : Bytes) (lport : ℕ) (w w' w'' : World)
      → o.exists (text "via") ≡ true
      → libs.get_shown (text "port") 8082 o ≡ ok rport
      → find_free_port libs w ≡ (ok lport, w')
      → libs.system
          (o.get (text "via_cmd") (text "/usr/bin/ssh -f -L \"$L\":\"$H\":\"$R\" \"$G\" sleep 20"))
          (set_variables libs
            (o.get (text "via") [])
            (o.get (text "server") (text "localhost"))
            rport
            (libs.show lport)
            w')
        ≡ (exited 0, w'')
      → server_url curl join_words
          (record out { create_tunnel = create_tunnel libs })
          o
          port
          (printed, w)
        ≡ (
          ok (o.get (text "server") (text "localhost") ++ (text ":" ++ libs.show lport)),
          (printed, w''),
        )
  unfolding server_url outside
  via_address curl join_words out o port rport printed lport w w' w'' v p f s =
      rw (v, create_tunnel-opened o rport lport w w' w'' p f s) refl

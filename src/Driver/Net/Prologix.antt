-- ===== src/Driver/Net/Prologix.antt =====
-- server/drv_net_gpib_prologix.h: a GPIB device behind a Prologix adapter on the network.
use device.Base.{
  ◌==◌, length, [], ◌∷◌, ◌++◌, if◌then◌else◌, Bytes, text, beq, Result, ok, err, crash, Exec, ◌>>=◌,
  ◌>>◌, not, ◌&&◌,
}
use device.Driver.Net
use device.Driver.Spp.{same_ignoring_case}
use device.Driver.Utils.{check_read_cond}
use device.Driver.Net.{Sockets, Net, NetOptions, new_net, net_options}

-- The driver and its GPIB address.
pub record Prologix : Type 0 where
  pub base : Net
  pub addr : Bytes

module _ {Addr World : Type 0} (net : Sockets Addr World) (d : Prologix) where
  skipped : Exec World (Unit {0})
  skipped w = (ok tt, w)

  -- sel_device: the address of the adapter is asked for, and changed if it is another one.
  unfoldable pub sel_device : Exec World (Unit {0})
  unfolding skipped
  sel_device = do
    Net.write net d.base (text "++addr")
    a ← Net.read net d.base
    if beq a d.addr then skipped else Net.write net d.base (text "++addr" ++ (text " " ++ d.addr))

  unfoldable pub read : Exec World Bytes
  unfolding sel_device
  read = do sel_device; Net.read net d.base

  unfoldable pub write : Bytes → Exec World (Unit {0})
  unfolding sel_device
  write msg = do sel_device; Net.write net d.base msg

  -- if (!check_read_cond(msg, read_cond)) return std::string(); return read();
  answered_by : Bytes → Exec World Bytes
  unfolding read
  answered_by msg w =
      let s = read w in if check_read_cond msg d.base.read_cond then s else (ok [], w)

  -- Driver_net::ask, which calls the read and the write of this class
  unfoldable pub ask : Bytes → Exec World Bytes
  unfolding write answered_by
  ask msg =
      if not (length d.base.idn == 0) && same_ignoring_case msg (text "*idn?")
      then (λ w. (ok d.base.idn, w))
      else (do write msg; answered_by msg)

module _ {F Addr World : Type 0} (set : NetOptions F) (net : Sockets Addr World) where
  given : {A : Type 0} → Result A → Exec World A
  given r w = (r, w)

  -- set_opt, whose options are for the constructor of Driver_net: where the options are known, it
  -- assigns to the member addr before that is constructed.
  unfoldable pub set_opt : Result (NetOptions F)
  set_opt = checked (
      set.opts.check_unknown (
        text "addr"
        ∷ text "port"
        ∷ text "timeout"
        ∷ text "bufsize"
        ∷ text "errpref"
        ∷ text "idn"
        ∷ []))
    where
      checked : Result (Unit {0}) → Result (NetOptions F)
      checked (ok a) = crash
      checked (err e) = err e
      checked crash = crash

  -- The member addr is constructed behind Driver_net, empty.
  built : Net → Exec World Prologix
  built base w = (ok (record { base = base; addr = [] }), w)

  -- Driver_net_gpib_prologix(opts)
  unfoldable pub new_prologix : Exec World Prologix
  unfolding given set_opt built
  new_prologix = do o ← given set_opt; base ← new_net o net; built base

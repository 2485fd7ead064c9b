-- ===== src/Driver/Test.antt =====
-- server/drv_test.h: the driver that repeats what is sent to it.
use device.Base.{[], Bytes, ok, Exec, ◌>>◌}

pub record TestDriver : Type 0 where
  pub m : Bytes

-- Driver_test(opts)
unfoldable pub new_test : TestDriver
new_test = record { m = [] }

unfoldable pub read : Exec TestDriver Bytes
read d = (ok d.m, d)

unfoldable pub write : Bytes → Exec TestDriver (Unit {0})
write msg d = (ok tt, record { m = msg })

unfoldable pub ask : Bytes → Exec TestDriver Bytes
unfolding write read
ask msg = do write msg; read

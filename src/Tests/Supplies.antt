-- ===== src/Tests/Supplies.antt =====
-- server/drv_serial_hm310t.cpp: the theorems on the power supply, with one that has 500 in every
-- register.
use device.Base.{ℕ, List, [], ◌∷◌, Bytes, true, ok}
use device.Driver.Modbus.{Port}
use device.Driver.Hm310t.{Values, Supply}

-- It keeps the requests that it gets.
abbrev supply_port : Port (List Bytes)
supply_port = record {
  write = λ msg w. (ok tt, msg ∷ w);
  read = λ w. (ok (1 ∷ 3 ∷ 2 ∷ 1 ∷ 244 ∷ 0xB8 ∷ 0x53 ∷ []), w);
  show = λ n. n ∷ [];
}

abbrev values : Values
values = record {
  show = λ n. n ∷ [];
  read_unsigned = λ s. ok 0;
  show_scaled = λ k n. k ∷ n ∷ [];
  read_scaled16 = λ k s. ok 0;
  read_scaled32 = λ k s. ok 0;
  read_bool = λ s. ok true;
  lower_words = λ s. ok (s ∷ []);
}

abbrev precisions : Supply
precisions = record { ve = 2; ie = 3; pe = 3 }

abbrev low : ℕ
low = 7

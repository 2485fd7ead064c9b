-- ===== src/Tests/Ports.antt =====
-- server/drv_utils.cpp, server/drv_serial.cpp, server/drv_serial_hm310t.cpp and server/drv_spp.cpp:
-- the theorems on the drivers, on concrete messages; and examples.
use mathlib.Core.List.{flatten}
use device.Base.{
  some, ℕ, ◌≡◌, ◌≢◌, ◌<◌, refl, ap, ◌∙◌, arith, some, none, List, [], ◌∷◌, ◌++◌, Bytes, text, true,
  false, ok,
}
use device.Driver.Utils.{trim_str, qmark, qmark1w, find, before, check_read_cond}
use device.Driver.Utils.Laws.{EndsWith}
use device.Driver.Modbus.{
  modbus_crc, crc_loop, crc_bits, crc_bit, with_crc, Port, request, modbus_func3,
}
use device.Driver.Modbus.Crc.{modbus_crc_residue}
use device.Driver.Modbus.Frames.{modbus_func3_value}
use device.Driver.Spp.{Spp, line, read_spp}
use device.Driver.Spp.Reading.{IsMark, answer, lines_text, drop_empty, read_spp-answer}
use device.Driver.Serial.{Sys, ReadResult, bytes, Serial, read_loop}
use device.Driver.Serial.Reading.{read_acked}

read_cond_first_word : check_read_cond (text "volt 1?") qmark1w ≡ false
unfolding check_read_cond find before text
read_cond_first_word = refl

abbrev reading : Bytes
reading = 1 ∷ 3 ∷ 0 ∷ 4 ∷ 0 ∷ 1 ∷ []

reading_crc : modbus_crc reading ≡ 0xCBC5
unfolding modbus_crc crc_loop crc_bits crc_bit
reading_crc = refl

modbus_crc_residue_example : (modbus_crc reading < 65536) × (modbus_crc (with_crc reading) ≡ 0)
modbus_crc_residue_example = modbus_crc_residue reading (omega arith)

-- A power supply that has the value 500 in every register: it answers what was written.
abbrev port : Port (List Bytes)
port = record {
  write = λ msg w. (ok tt, msg ∷ w);
  read = λ w. (ok (1 ∷ 3 ∷ 2 ∷ 1 ∷ 244 ∷ 0xB8 ∷ 0x53 ∷ []), w);
  show = λ n. n ∷ [];
}

modbus_func3_value_example : modbus_func3 port [] 4 [] ≡ (ok 500, request 3 4 1 ∷ [])
modbus_func3_value_example =
    modbus_func3_value port [] 4 500 1 0xB8 0x53 [] (request 3 4 1 ∷ []) (request 3 4 1 ∷ []) refl
      refl

abbrev spp : Spp
spp = record { prog = text "graphene"; ch = b'#'; idn = text "graphene db" }

spp-IsMark : IsMark spp.ch
spp-IsMark = record { not_error = ground arith; not_fatal = ground arith; not_ok = ground arith }

abbrev lines : List Bytes
lines = [] ∷ text "#1" ∷ [] ∷ text "b" ∷ []

read_spp-answer_example :
    read_spp spp (record { output = answer spp.ch lines (line [] ∷ []); input = [] })
    ≡ (ok (lines_text (drop_empty lines)), record { output = line [] ∷ []; input = [] })
read_spp-answer_example = read_spp-answer spp lines (line [] ∷ []) [] spp-IsMark

-- A port that gives these pieces, and then nothing.
abbrev read_piece : List Bytes → ReadResult × List Bytes
read_piece [] = (bytes [], [])
read_piece (c ∷ cs) = (bytes c, cs)

abbrev sys : Sys (List Bytes)
sys = record {
  read = read_piece;
  write = λ msg w. (none, w);
  flush = λ w. w;
  sleep = λ w. w;
  close_port = λ w. w;
}

abbrev serial : Serial
serial = record {
  errpref = text "serial: ";
  idn = [];
  ack = 6 ∷ [];
  nack = 21 ∷ [];
  add = 13 ∷ [];
  trim = 13 ∷ [];
  read_cond = qmark;
  delays = false;
  flush_on_err = true;
}

abbrev last : Bytes → ℕ
last [] = 0
last (c ∷ []) = c
last (c ∷ d ∷ s) = last (d ∷ s)

last-append : (m : Bytes) (b : ℕ) → last (m ++ b ∷ []) ≡ b
last-append [] b = refl
last-append (c ∷ []) b = refl
last-append (c ∷ d ∷ m) b = last-append (d ∷ m) b

ends_otherwise : (s : Bytes) (b : ℕ) → last s ≢ b → ¬ EndsWith s (b ∷ [])
ends_otherwise s b ne (m, e) = ne (ap last e ∙ last-append m b)

read_acked_example :
    read_loop sys serial 2 [] ((1 ∷ []) ∷ (2 ∷ 13 ∷ 6 ∷ []) ∷ [])
    ≡ (some (ok (trim_str (1 ∷ 2 ∷ 13 ∷ []) serial.trim).1), [])
unfolding flatten
read_acked_example =
    read_acked sys serial (1 ∷ []) ((2 ∷ 13 ∷ 6 ∷ []) ∷ []) (1 ∷ 2 ∷ 13 ∷ []) 2
      ((1 ∷ []) ∷ (2 ∷ 13 ∷ 6 ∷ []) ∷ []) [] (λ e. cc)
      (λ e. cc, (2 ∷ 13 ∷ 6 ∷ []) ∷ [], refl, (λ e. cc, [], refl, refl))
      (
        ends_otherwise (1 ∷ []) 6 (omega arith),
        (λ ne. ends_otherwise (1 ∷ []) 21 (omega arith)),
        tt,
      )
      refl (omega arith)

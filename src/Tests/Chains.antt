-- ===== src/Tests/Chains.antt =====
-- server/device_c.cpp as the program of a device: the theorem on two servers, with one that answers
-- every request with two lines.
use device.Base.{
  ℕ, refl, arith, some, List, [], ◌∷◌, ◌++◌, Bytes, map, text, newline, ok, beq, false,
}
use device.Client.{get, set_up, use_dev, send, ask_server, received}
use device.Client.Reading.{lines_of, IsReadable}
use device.Client.Relay.{header_text}
use device.Client.Session.{replies}
use device.Driver.Objects.{Parts}
use device.Driver.Spp.{line}
use device.Driver.Spp.Reading.{lines_text, behind_lines}
use device.Manager.{Words, words}
use device.Map.{lookup, bytes_key}
use device.Server.Programs.Chain.{ServesReplies, chained, written}
use device.Tests.Programs.{parts, build, server}
use device.Tests.Clients.{counting, first_word}
use device.Tests.Sample.{Opt, libs}

-- Each line is one word.
abbrev read_all : Bytes → List Words
read_all t = map (λ l. words (l ∷ [])) (lines_of t)

abbrev input : List Words
input = read_all (written (text "*idn?" ∷ []))

readable : IsReadable (ok (text "a" ++ newline ∷ text "b"))
unfolding IsReadable lines_text behind_lines text
readable = (
  text "a",
  text "b" ∷ [],
  refl,
  (
    record { whole = omega arith; unmarked = refl },
    (record { whole = omega arith; unmarked = refl }, tt),
  ),
  λ e. cc,
)

abbrev relay : Parts Opt (Unit {0}) ℕ ℕ ℕ ℕ
relay = record parts {
  read_int = λ s. ok (some 1);
  start = λ prog w. (
    ok (record {
      output = map line (
          lines_of
            (use_dev counting (text "http://h") first_word (text "gen") false [] input
              ([], 0)).1.0);
      input = [];
    }),
    w,
  );
}

chained_example :
    ServesReplies libs build relay 1
      (text "db")
      []
      counting
      (text "http://h")
      first_word
      (text "gen")
      []
      false
      (text "*idn?" ∷ [])
      (ok (text "a" ++ newline ∷ text "b") ∷ [])
      server
unfolding lines_of written text set_up send ask_server get received header_text replies lookup beq
chained_example =
    chained libs build relay 1 (text "db") [] counting (text "http://h") first_word (text "gen") []
      false (λ s e. cc) read_all (text "*idn?" ∷ []) 0 1 server 3 (λ e. cc) (omega arith) refl
      (record {
        known = refl;
        has_prog = λ e. cc;
        no_idn = refl;
        opening = tt;
        reading = tt;
        closing = tt;
        open_number = refl;
        read_number = refl;
        close_number = refl;
      })
      refl (omega arith) (omega arith) refl refl (readable, tt) refl

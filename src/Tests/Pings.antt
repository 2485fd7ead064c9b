-- ===== src/Tests/Pings.antt =====
-- server/device_ping.cpp: the theorem on a driver that answers with the message.
use device.Base.{ℕ, [], ◌∷◌, ok}
use device.Ping.{PingLibs}
use device.Tests.Sample.{Opt}

abbrev ping_libs : PingLibs Opt ℕ
ping_libs = record {
  opt_empty = [];
  opt_put = λ k v o. (k, v) ∷ o;
  unquote_words = λ v. ok v;
  print_out = λ s w. w;
  print_err = λ s w. w;
  help_text = [];
}

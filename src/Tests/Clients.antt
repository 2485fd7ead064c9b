-- ===== src/Tests/Clients.antt =====
-- server/device_c.cpp: the theorems on the client, with the server of the other tests and with one that
-- answers every request with two lines.
use device.Base.{
  ◌==◌, some, if◌then◌else◌, ℕ, ◌+◌, ◌≢◌, List, [], ◌∷◌, ◌++◌, Bytes, text, newline, true, false,
  none, ok, err, crash,
}
use device.Client.{Curl, finished, get}
use device.Client.Requests.{transfer_of}
use device.Client.Main.{Outside, main}
use device.Client.Main.Safety.{main-IsSafe}
use device.Driver.Setup.{Options}
use device.Server.{Server, process_request}
use device.Server.Responses.{get_call}
use device.Tests.Sample.{Opt, echo, libs, held}

-- A library that escapes the slash and the percent sign.
unfoldable escape : Bytes → Bytes
escape [] = []
escape (c ∷ s) =
    let rest = escape s in
    if c == b'/' then b'%' ∷ b'S' ∷ rest else if c == b'%' then b'%' ∷ b'%' ∷ rest else c ∷ rest

unfoldable unescape : Bytes → Bytes
unescape [] = []
unescape (c ∷ []) = c ∷ []
unescape (c ∷ d ∷ s) =
    let two = unescape s in
    let one = unescape (d ∷ s) in
    if c == b'%' then (if d == b'S' then b'/' ∷ two else d ∷ two) else c ∷ one

-- The URL is handed to the server, on connection 1.
abbrev direct : Curl (Server Opt ℕ ℕ)
direct = record {
  curl_easy_escape = λ s. some (escape s);
  curl_easy_perform = λ url s.
      let (r, b, t) = process_request libs echo 1 (get_call true 0 (unescape url)) s in
      (transfer_of (text "cut") r, t);
}

abbrev server : Server Opt ℕ ℕ
server = record {
  manager = record {
    devices = (text "gen", held) ∷ [];
    devfile = text "devices.cfg";
    conn_names = (1, b'#' ∷ 1 ∷ []) ∷ [];
  };
  world = 0;
  cmax = 2;
}

-- It counts the requests.
abbrev pub counting : Curl ℕ
counting = record {
  curl_easy_escape = λ s. some s;
  curl_easy_perform = λ url w. (finished 200 (text "a" ++ newline ∷ text "b"), w + 1);
}

abbrev pub first_word : List Bytes → Bytes
first_word [] = []
first_word (w ∷ ws) = w

-- No option is set, and the configuration file adds none.
abbrev no_options : Options (Unit {0})
no_options = record {
  check_unknown = λ names. ok tt;
  exists = λ name. false;
  get = λ name v. v;
  get_bool = λ name v. ok v;
  get_int = λ name. ok none;
  get_double = λ name v. ok v;
}

abbrev surroundings : Outside (Unit {0}) ℕ
surroundings = record {
  opts = no_options;
  with_conf = λ w. (ok no_options, w);
  int_text = λ opts name n. ok (text "8082");
  pid = text "7";
  create_tunnel = λ opts w. (err (text "no tunnel"), w);
}

-- use_dev without its parameter
main-IsSafe_example :
    (main counting first_word surroundings 0 [] (text "use_dev" ∷ []) ([], 0)).0 ≢ crash
main-IsSafe_example =
    main-IsSafe counting first_word surroundings (λ s e. cc) 0 [] (text "use_dev" ∷ []) (λ s e. cc)
      (λ o n k e. cc) (λ o s e. cc) ([], 0)

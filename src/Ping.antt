-- ===== src/Ping.antt =====
-- server/device_ping.cpp: a program that opens a device without a server and asks it once. The
-- options, the quotes and what is printed are arguments; the device is that of Device.
pub mod Asking
use device.Base.{
  ℕ, Bool, false, not, ◌||◌, ◌==◌, ltb, List, [], ◌∷◌, ◌++◌, length, drop, if◌then◌else◌, Bytes,
  text, newline, sp, beq, Result, ok, err, crash, continue, ◌>>=◌,
}
use device.Device.{Drivers, new_device, ask}

pub record PingLibs (Opt World : Type 0) : Type 0 where
  pub opt_empty : Opt
  pub opt_put : Bytes → Bytes → Opt → Opt
  pub unquote_words : Bytes → Result Bytes
  -- std::cout, and std::cerr
  pub print_out : Bytes → World → World
  pub print_err : Bytes → World → World
  pub help_text : Bytes

-- args[i][0]!='-', of a word with a first character
unfoldable pub has_dash : Bytes → Bool
has_dash [] = false
has_dash (c ∷ s) = c == b'-'

-- for (size_t j = i+2; j<args.size(); j++) msg += " " + args[j];
unfoldable pub join_words : Bytes → List Bytes → Bytes
join_words msg [] = msg
join_words msg (w ∷ ws) = join_words (msg ++ sp ∷ w) ws

module _ {Opt Drv World : Type 0} (libs : PingLibs Opt World)
    (drivers : Drivers Opt Drv World) where
  unfoldable pub put_pair : Bytes → Result Bytes → Opt → Result Opt
  put_pair name (ok value) o = ok (libs.opt_put name value o)
  put_pair name (err e) o = err e
  put_pair name crash o = crash

  unfoldable pub then_pairs :
      Result Opt → (Opt → Result (Opt × List Bytes)) → Result (Opt × List Bytes)
  then_pairs (ok o) next = next o
  then_pairs (err e) next = err e
  then_pairs crash next = crash

  -- while (i+2 < args.size() && args[i]!="--"): the words from args[i] on; the options, and what is
  -- left.
  unfoldable pub parse_pairs : List Bytes → Opt → Result (Opt × List Bytes)
  unfolding has_dash put_pair then_pairs
  parse_pairs (a ∷ v ∷ x ∷ args) o =
      let rest =
        then_pairs (put_pair (drop 1 a) (libs.unquote_words v) o) (parse_pairs (x ∷ args)) in
      if beq a (text "--")
      then ok (o, a ∷ v ∷ x ∷ args)
      else if ltb (length a) 2 || not (has_dash a)
      then err (
          text "parameter name should be prefixed with \"-\" and contain at least one character: "
          ++ a)
      else rest
  parse_pairs args o = ok (o, args)

  -- if (i>=args.size() || args[i]!="--") …; if (i+1>=args.size()) …
  unfoldable pub message : List Bytes → Result Bytes
  unfolding join_words
  message [] = err no_end
    where
      no_end : Bytes
      no_end = text "driver options should contain -<name> <value> pairs followed by -- and "
  message (a ∷ ws) = if beq a (text "--") then words ws else err no_end
    where
      no_end : Bytes
      no_end = text "driver options should contain -<name> <value> pairs followed by -- and "

      words : List Bytes → Result Bytes
      words [] = err (text "empty message")
      words (m ∷ ms) = ok (join_words m ms)

  unfoldable pub asked_once : Bytes → Opt → Result Bytes → World → Result Bytes × World
  asked_once drv o (ok msg) w =
      let (r, (d, w')) = ask drivers 0 msg (new_device [] drv o, w) in (r, w')
  asked_once drv o (err e) w = (err e, w)
  asked_once drv o crash w = (crash, w)

  unfoldable pub with_pairs : Bytes → Result (Opt × List Bytes) → World → Result Bytes × World
  unfolding message asked_once
  with_pairs drv (ok (o, rest)) w = asked_once drv o (message rest) w
  with_pairs drv (err e) w = (err e, w)
  with_pairs drv crash w = (crash, w)

  -- What is printed, or thrown.
  unfoldable pub ping_answer : List Bytes → World → Result Bytes × World
  unfolding parse_pairs with_pairs
  ping_answer [] w = (err [], libs.print_out libs.help_text w)
  ping_answer (drv ∷ args) w = with_pairs drv (parse_pairs args libs.opt_empty) w

  -- The return code.
  unfoldable pub ping_status : Result Bytes × World → Result ℕ × World
  ping_status (ok answer, w) = (ok 0, libs.print_out (answer ++ newline ∷ []) w)
  ping_status (err e, w) = (
    ok 1,
    (if length e == 0 then w else libs.print_err (text "Error: " ++ (e ++ newline ∷ [])) w),
  )
  ping_status (crash, w) = (crash, w)

  unfoldable pub device_ping : List Bytes → World → Result ℕ × World
  unfolding ping_answer ping_status
  device_ping args w = ping_status (ping_answer args w)

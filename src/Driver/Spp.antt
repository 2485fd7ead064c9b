-- ===== src/Driver/Spp.antt =====
-- server/drv_spp.h and server/drv_spp.cpp: a program that speaks the Simple Pipe Protocol. The
-- program's output is the list of what IOFilter::getline gives, and its end is the end of the file;
-- what is written to the program is collected.
pub mod Reading
pub mod Open
use device.Base.{
  ℕ, ◌+◌, Bool, true, false, ◌&&◌, ◌||◌, not, List, [], ◌∷◌, ◌++◌, ltb, ◌==◌, length, take, drop,
  if◌then◌else◌, Bytes, text, newline, beq, Result, ok, err, Exec, continue, ◌>>=◌, ◌>>◌,
}

-- One call of getline: a line, or an error such as a timeout.
pub data Got : Type 0 where
  line : Bytes → Got
  failed : Bytes → Got

pub record Pipe : Type 0 where
  pub output : List Got
  pub input : Bytes

-- std::tolower over ASCII
abbrev pub lower : ℕ → ℕ
lower c = if ltb 64 c && ltb c 91 then c + 32 else c

-- strcasecmp(a, b) == 0 for texts with no zero byte
unfoldable pub same_ignoring_case : Bytes → Bytes → Bool
same_ignoring_case [] [] = true
same_ignoring_case (a ∷ s) (b ∷ t) = lower a == lower b && same_ignoring_case s t
same_ignoring_case _ _ = false

-- if (ret.size()>0) ret += '\n';
abbrev pub separated : Bytes → Bytes
separated [] = []
separated (c ∷ s) = (c ∷ s) ++ newline ∷ []

-- A line that begins with the special character, without it.
pub data Special : Type 0 where
  stop : Result Bytes → Special
  more : Bytes → Special

module _ (ch : ℕ) (prog : Bytes) where
  -- if (l.size()>1 && l[1] == ch)
  abbrev pub doubled : Bytes → Bool
  doubled [] = false
  doubled (c ∷ s) = c == ch

  -- The branch for a line that begins with `ch`; `s` is l.substr(1).
  unfoldable pub special : Bytes → Bytes → Special
  special ret s =
      if beq (take 7 s) (text "Error: ") || beq (take 7 s) (text "Fatal: ")
      then stop (err (drop 7 s))
      else if beq s (text "OK")
      then stop (ok ret)
      else if doubled s
      then more (separated ret ++ s)
      else stop (
          err (
            text "SPP: symbol "
            ++ (ch ∷ (text " in the beginning of a line is not protected: " ++ prog))))

  abbrev pub first_is : Bytes → Bool
  first_is [] = false
  first_is (c ∷ s) = c == ch

  -- The loop of read_spp.
  unfoldable pub read_loop : Bytes → List Got → Result Bytes × List Got
  unfolding special
  read_loop ret [] = (err (text "SPP: unexpected EOF: " ++ prog), [])
  read_loop ret (failed e ∷ out) = (err e, out)
  read_loop ret (line l ∷ out) = elim (first_is l) [
    | true ↦ elim (special ret (drop 1 l)) [ stop r ↦ (r, out) | more ret' ↦ read_loop ret' out ]
    | false ↦ read_loop (separated ret ++ l) out
  ]

pub record Spp : Type 0 where
  pub prog : Bytes
  pub ch : ℕ
  pub idn : Bytes

-- read_spp on an open program
unfoldable pub read_spp : Spp → Exec Pipe Bytes
unfolding read_loop
read_spp d p = let (r, out) = read_loop d.ch d.prog [] p.output in (r, record p { output = out })

-- flt->ostream() << msg << "\n"
unfoldable pub write : Spp → Bytes → Exec Pipe (Unit {0})
write d msg p = (ok tt, record p { input = p.input ++ (msg ++ newline ∷ []) })

-- Driver_spp::ask
unfoldable pub ask : Spp → Bytes → Exec Pipe Bytes
unfolding write read_spp
ask d msg =
    if not (length d.idn == 0) && not (same_ignoring_case msg (text "*idn?"))
    then (λ p. (ok d.idn, p))
    else (do write d msg; read_spp d)

-- ===== src/Driver/Spp/Open.antt =====
-- server/drv_spp.cpp: the constructor and the destructor of Driver_spp. Starting the program and
-- reading a version number are arguments; a timeout shows as an error among what the program gives.
use device.Base.{
  ℕ, Bool, true, false, ◌||◌, not, Option, none, some, List, [], ◌∷◌, ◌++◌, ◌==◌, length,
  if◌then◌else◌, Bytes, text, Result, ok, err, crash, Exec, ◌>>=◌, ◌>>◌, refl, ◌≡◌, ◌≢◌,
  length_nonempty,
}
use device.Driver.Setup.{Options}
use device.Driver.Spp.{Got, line, failed, Pipe, Spp, read_spp}
use device.Driver.Spp.Reading.{IsMark, answer, read_spp-answer}

-- The driver's program, `none` when it has been closed; and what the constructor throws or builds.
abbrev pub Opened : Type 0
Opened = Result Spp × Option Pipe

-- flt->getline(l, open_timeout), whose return value is not looked at: l is empty at the end.
unfoldable pub first_line : Exec Pipe Bytes
first_line p = elim p.output [
  | [] ↦ (ok [], p)
  | line l ∷ out ↦ (ok l, record p { output = out })
  | failed e ∷ out ↦ (err e, record p { output = out })
]

-- The special character of a header, and the text of its version.
unfoldable pub header : Bytes → Option (ℕ × Bytes)
header (ch ∷ c ∷ d ∷ e ∷ v ∷ vs) =
    if not (c == b'S') || not (d == b'P') || not (e == b'P') then none else some (ch, v ∷ vs)
header _ = none

module _ (read_int : Bytes → Result (Option ℕ)) where
  -- ver!=1 && ver!=2
  abbrev pub supported : Option ℕ → Bool
  supported none = false
  supported (some v) = v == 1 || v == 2

  returned : {A : Type 0} → Result A → Exec Pipe A
  returned r p = (r, p)

  -- The rest of the `try` behind the first line.
  unfoldable pub check_header : Bytes → Bytes → Bytes → Option (ℕ × Bytes) → Exec Pipe Spp
  unfolding returned
  check_header errpref prog idn none =
      λ p. (err (errpref ++ text "not an SPP program, header expected"), p)
  check_header errpref prog idn (some (ch, version)) = do
    ver ← returned (read_int version)
    if supported ver
        then (do
          read_spp (record { prog = prog; ch = ch; idn = idn })
          returned (ok (record { prog = prog; ch = ch; idn = idn })))
        else returned (err (errpref ++ text "unsupported SPP version"))

  unfoldable pub handshake : Bytes → Bytes → Bytes → Exec Pipe Spp
  unfolding first_line header
  handshake errpref prog idn = do l ← first_line; check_header errpref prog idn (header l)

  -- catch (Err e): the program is closed
  unfoldable pub closed_on_error : Result Spp × Pipe → Opened
  closed_on_error (ok d, p) = (ok d, some p)
  closed_on_error (err e, p) = (err e, none)
  closed_on_error (crash, p) = (crash, some p)

  -- A program that begins with the special character, SPP and a version that reads as 1 or 2, and
  -- goes on with an answer by the protocol, is accepted with that character, whatever lines the
  -- answer has; and what follows is left for the first request.
  pub handshake_lem :
      (errpref prog idn input : Bytes) (ch c ver : ℕ) (cs : Bytes) (ls : List Bytes)
      (rest : List Got)
      → IsMark ch
      → read_int (c ∷ cs) ≡ ok (some ver)
      → supported (some ver) ≡ true
      → handshake errpref prog idn (record {
        output = line (ch ∷ b'S' ∷ b'P' ∷ b'P' ∷ c ∷ cs) ∷ answer ch ls rest;
        input = input;
      })
        ≡ (ok (record { prog = prog; ch = ch; idn = idn }), record { output = rest; input = input })
  unfolding handshake check_header
  handshake_lem errpref prog idn input ch c ver cs ls rest mark e f =
      rw (e, f, read_spp-answer (record { prog = prog; ch = ch; idn = idn }) ls rest input mark)
        refl

  module _ {F World : Type 0} (opts : Options F) (open_default read_default close_default : F)
      (start : Bytes → World → Result Pipe × World) where
    started : Bytes → Bytes → Result Pipe × World → Opened × World
    started errpref prog (ok p, w) =
        (closed_on_error (handshake errpref prog (opts.get (text "idn") []) p), w)
    started errpref prog (err e, w) = ((err e, none), w)
    started errpref prog (crash, w) = ((crash, none), w)

    with_number : Result F → Result (Unit {0}) → Result (Unit {0})
    with_number (ok x) next = next
    with_number (err e) next = err e
    with_number crash next = crash

    -- The three timeouts, whose values only reach getline and term.
    timeouts : Result (Unit {0})
    timeouts = with_number (opts.get_double (text "open_timeout") open_default) (
        with_number (opts.get_double (text "read_timeout") read_default)
          (with_number (opts.get_double (text "close_timeout") close_default) (ok tt)))

    with_program : Bytes → Bytes → Result (Unit {0}) → World → Opened × World
    with_program errpref prog (ok a) w = started errpref prog (start prog w)
    with_program errpref prog (err e) w = ((err e, none), w)
    with_program errpref prog crash w = ((crash, none), w)

    checked : Result (Unit {0}) → World → Opened × World
    checked (ok a) w =
        let errpref = opts.get (text "errpref") (text "spp: ") in
        let prog = opts.get (text "prog") [] in
        if length prog == 0
        then ((err (errpref ++ text "parameter -prog is empty or missing"), none), w)
        else with_program (errpref ++ (prog ++ text ": ")) prog timeouts w
    checked (err e) w = ((err e, none), w)
    checked crash w = ((crash, none), w)

    abbrev pub spp_options : List Bytes
    spp_options =
        text "prog"
        ∷ text "open_timeout"
        ∷ text "read_timeout"
        ∷ text "close_timeout"
        ∷ text "errpref"
        ∷ text "idn"
        ∷ []

    -- Driver_spp(opts)
    unfoldable pub new_spp : World → Opened × World
    unfolding checked with_program started timeouts with_number
    new_spp w = checked (opts.check_unknown spp_options) w

    -- Options that the constructor takes: a program, no text of its own for *idn?, and numbers.
    pub record IsAccepted : Type 0 where
      pub known : opts.check_unknown spp_options ≡ ok tt
      pub has_prog : opts.get (text "prog") [] ≢ []
      pub no_idn : opts.get (text "idn") [] ≡ []
      pub opening : F
      pub reading : F
      pub closing : F
      pub open_number : opts.get_double (text "open_timeout") open_default ≡ ok opening
      pub read_number : opts.get_double (text "read_timeout") read_default ≡ ok reading
      pub close_number : opts.get_double (text "close_timeout") close_default ≡ ok closing

    timeouts-numbers : IsAccepted → timeouts ≡ ok tt
    unfolding timeouts with_number
    timeouts-numbers h = rw (h.open_number, h.read_number, h.close_number) refl

    -- Such options and a program that starts as in handshake_lem.
    pub new_spp-started :
        (ch c ver : ℕ) (cs : Bytes) (ls : List Bytes) (rest : List Got) (w w' : World)
        → IsAccepted
        → IsMark ch
        → read_int (c ∷ cs) ≡ ok (some ver)
        → supported (some ver) ≡ true
        → start (opts.get (text "prog") []) w ≡ (
          ok (record {
            output = line (ch ∷ b'S' ∷ b'P' ∷ b'P' ∷ c ∷ cs) ∷ answer ch ls rest;
            input = [];
          }),
          w',
        )
        → new_spp w ≡ (
          (
            ok (record { prog = opts.get (text "prog") []; ch = ch; idn = [] }),
            some (record { output = rest; input = [] }),
          ),
          w',
        )
    unfolding new_spp closed_on_error with_program started
    new_spp-started ch c ver cs ls rest w w' h mark e f s =
        rw
          (
            h.known,
            length_nonempty (opts.get (text "prog") []) h.has_prog,
            timeouts-numbers h,
            s,
            h.no_idn,
            handshake_lem
                (opts.get (text "errpref") (text "spp: ")
                  ++ (opts.get (text "prog") [] ++ text ": "))
                (opts.get (text "prog") []) [] [] ch c ver cs ls rest mark e f,
          )
          refl

  -- ~Driver_spp
  unfoldable pub delete_spp : Option Pipe → Option Pipe
  delete_spp p = none

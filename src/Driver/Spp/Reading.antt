-- ===== src/Driver/Spp/Reading.antt =====
-- Driver_spp::read_spp and ask: what a well-behaved program's answer is read as.
use device.Base.{
  ℕ, ◌≡◌, ◌≢◌, refl, ◌∙◌, true, false, List, [], ◌∷◌, ◌++◌, map, append-nil, append_assoc, ◌==◌,
  drop, if◌then◌else◌, Bytes, text, newline, beq, Result, ok, err, arith, inl, inr, Bool-cases,
  length_nonempty,
}
use device.Driver.Spp.{
  Got, line, Pipe, Spp, same_ignoring_case, separated, stop, more, special, first_is, read_loop,
  read_spp, ask,
}

-- How a program protects a line that begins with the special character.
unfoldable pub protect : ℕ → Bytes → Bytes
protect ch [] = []
protect ch (c ∷ l) = if c == ch then ch ∷ c ∷ l else c ∷ l

-- The special character can be told from the words that the protocol puts behind it.
pub record IsMark (ch : ℕ) : Type 0 where
  pub not_error : ch ≢ b'E'
  pub not_fatal : ch ≢ b'F'
  pub not_ok : ch ≢ b'O'

-- Lines with newlines between them.
unfoldable pub behind_lines : List Bytes → Bytes
behind_lines [] = []
behind_lines (l ∷ ls) = newline ∷ (l ++ behind_lines ls)

unfoldable pub lines_text : List Bytes → Bytes
lines_text [] = []
lines_text (l ∷ ls) = l ++ behind_lines ls

-- The lines behind the empty ones at the beginning.
unfoldable pub drop_empty : List Bytes → List Bytes
drop_empty [] = []
drop_empty ([] ∷ ls) = drop_empty ls
drop_empty ((c ∷ l) ∷ ls) = (c ∷ l) ∷ ls

abbrev pub answer : ℕ → List Bytes → List Got → List Got
answer ch ls rest = map (λ l. line (protect ch l)) ls ++ line (ch ∷ text "OK") ∷ rest

-- An error behind some lines.
abbrev pub failure : ℕ → List Bytes → Bytes → List Got → List Got
failure ch ls e rest = map (λ l. line (protect ch l)) ls ++ line (ch ∷ (text "Error: " ++ e)) ∷ rest

module _ (ch : ℕ) (prog : Bytes) (mark : IsMark ch) where
  special_doubled :
      (ret l : Bytes) (c : ℕ) → c ≡ ch → special ch prog ret (c ∷ l) ≡ more (separated ret ++ c ∷ l)
  unfolding special text beq
  special_doubled ret l c e = ground (arith, mark.not_error, mark.not_fatal, mark.not_ok)

  loop_more :
      (ret l ret' : Bytes) (out : List Got)
      → first_is ch prog l ≡ true
      → special ch prog ret (drop 1 l) ≡ more ret'
      → read_loop ch prog ret (line l ∷ out) ≡ read_loop ch prog ret' out
  unfolding read_loop
  loop_more ret l ret' out e h = rw (e, read_loop, h)

  pub loop_stop :
      (ret l : Bytes) (r : Result Bytes) (out : List Got)
      → first_is ch prog l ≡ true
      → special ch prog ret (drop 1 l) ≡ stop r
      → read_loop ch prog ret (line l ∷ out) ≡ (r, out)
  unfolding read_loop
  loop_stop ret l r out e h = rw (e, read_loop, h)

  loop_plain :
      (ret l : Bytes) (out : List Got)
      → first_is ch prog l ≡ false
      → read_loop ch prog ret (line l ∷ out) ≡ read_loop ch prog (separated ret ++ l) out
  unfolding read_loop
  loop_plain ret l out e = rw (e, read_loop)

  special_ok : (ret : Bytes) → special ch prog ret (text "OK") ≡ stop (ok ret)
  unfolding special text beq
  special_ok ret = refl

  read_protected :
      (ret l : Bytes) (out : List Got)
      → read_loop ch prog ret (line (protect ch l) ∷ out)
        ≡ read_loop ch prog (separated ret ++ l) out
  unfolding protect
  read_protected ret [] out = loop_plain ret [] out refl
  read_protected ret (c ∷ l) out = elim (Bool-cases (c == ch)) [
    | inl e ↦ rw e (
        loop_more ret (ch ∷ c ∷ l) (separated ret ++ c ∷ l) out (ground arith)
          (special_doubled ret l c (ground arith)))
    | inr e ↦ rw e (loop_plain ret (c ∷ l) out e)
  ]

  read_end :
      (ret : Bytes) (out : List Got)
      → read_loop ch prog ret (line (ch ∷ text "OK") ∷ out) ≡ (ok ret, out)
  read_end ret out = loop_stop ret (ch ∷ text "OK") (ok ret) out (ground arith) (special_ok ret)

  -- What the loop has collected is followed by a newline and each further line.
  read_more :
      (c : ℕ) (ret : Bytes) (ls : List Bytes) (rest : List Got)
      → read_loop ch prog (c ∷ ret) (answer ch ls rest) ≡ (ok ((c ∷ ret) ++ behind_lines ls), rest)
  unfolding behind_lines
  read_more c ret [] rest = read_end (c ∷ ret) rest ∙ rw append-nil
  read_more c ret (l ∷ ls) rest =
      read_protected (c ∷ ret) l (answer ch ls rest)
      ∙ read_more c ((ret ++ newline ∷ []) ++ l) ls rest
      ∙ simp append_assoc

  read_first :
      (ls : List Bytes) (rest : List Got)
      → read_loop ch prog [] (answer ch ls rest) ≡ (ok (lines_text (drop_empty ls)), rest)
  unfolding lines_text drop_empty
  read_first [] rest = read_end [] rest
  read_first ([] ∷ ls) rest = read_protected [] [] (answer ch ls rest) ∙ read_first ls rest
  read_first ((c ∷ l) ∷ ls) rest =
      read_protected [] (c ∷ l) (answer ch ls rest) ∙ read_more c l ls rest

  special_error : (ret e : Bytes) → special ch prog ret (text "Error: " ++ e) ≡ stop (err e)
  unfolding special text beq
  special_error ret e = refl

  read_failed :
      (ret : Bytes) (ls : List Bytes) (e : Bytes) (rest : List Got)
      → read_loop ch prog ret (failure ch ls e rest) ≡ (err e, rest)
  read_failed ret [] e rest =
      loop_stop ret (ch ∷ (text "Error: " ++ e)) (err e) rest (ground arith) (special_error ret e)
  read_failed ret (l ∷ ls) e rest =
      read_protected ret l (failure ch ls e rest) ∙ read_failed (separated ret ++ l) ls e rest

-- An answer that a program sends by the protocol, with a special character other than E, F and O, each
-- line that begins with it protected and the OK line behind, is read as its lines with newlines between them, and what follows
-- it is left to be read. The empty lines at its beginning are lost.
pub read_spp-answer :
    (d : Spp) (ls : List Bytes) (rest : List Got) (input : Bytes)
    → IsMark d.ch
    → read_spp d (record { output = answer d.ch ls rest; input = input })
      ≡ (ok (lines_text (drop_empty ls)), record { output = rest; input = input })
unfolding read_spp
read_spp-answer d ls rest input mark = rw (read_first d.ch d.prog mark ls rest)

-- An error that a program sends behind any lines is thrown with its text, and what follows it is left.
pub read_spp-failure :
    (d : Spp) (ls : List Bytes) (e : Bytes) (rest : List Got) (input : Bytes)
    → IsMark d.ch
    → read_spp d (record { output = failure d.ch ls e rest; input = input })
      ≡ (err e, record { output = rest; input = input })
unfolding read_spp
read_spp-failure d ls e rest input mark = rw (read_failed d.ch d.prog mark [] ls e rest)

-- With a nonempty -idn parameter, `ask` answers every message that is not *idn? with that text, and
-- the program is neither written to nor read.
pub ask_idn :
    (d : Spp) (msg : Bytes) (p : Pipe)
    → d.idn ≢ []
    → same_ignoring_case msg (text "*idn?") ≡ false
    → ask d msg p ≡ (ok d.idn, p)
unfolding ask
ask_idn d msg p ne e = rw (length_nonempty d.idn ne, e)

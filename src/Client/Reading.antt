-- ===== src/Client/Reading.antt =====
-- use_dev of server/device_c.cpp read by Driver_spp of server/drv_spp.cpp: a server can have a
-- device of another server, through the client as its program.
use device.Base.{
  ℕ, zero, suc, ◌≡◌, ◌≢◌, refl, sym, ◌∙◌, ap, arith, false, List, [], ◌∷◌, ◌++◌, append_assoc,
  append-nil, map, length, ◌==◌, if◌then◌else◌, All, Bytes, text, newline, beq, Result, ok, err,
  crash,
}
use device.Client.Session.{reply_text, replies_text}
use device.Driver.Spp.{Got, line, Pipe, Spp, read_spp, read_loop, special, stop, first_is}
use device.Driver.Spp.Reading.{
  protect, behind_lines, lines_text, drop_empty, answer, IsMark, read_spp-answer, loop_stop,
}

abbrev pub hash : ℕ
hash = b'#'

abbrev pub NoNewline : Bytes → Type 0
NoNewline = All (λ c. c ≢ newline)

prefixed : ℕ → List Bytes → List Bytes
prefixed c [] = (c ∷ []) ∷ []
prefixed c (l ∷ ls) = (c ∷ l) ∷ ls

-- The lines of a text, as getline gives them.
unfoldable pub lines_of : Bytes → List Bytes
unfolding prefixed
lines_of [] = []
lines_of (c ∷ s) = let rest = lines_of s in if c == newline then [] ∷ rest else prefixed c rest

-- It has no newline and does not begin with the special character.
pub record IsPlain (l : Bytes) : Type 0 where
  pub whole : NoNewline l
  pub unmarked : first_is hash [] l ≡ false

-- An answer of plain lines, the first of them empty only where it is the last, and an error of one
-- line that is not empty.
unfoldable pub IsReadable : Result Bytes → Type 0
IsReadable (ok v) =
    (l : Bytes) × (ls : List Bytes) × (v ≡ lines_text (l ∷ ls))
    × All IsPlain (l ∷ ls)
    × (l ≡ [] → ls ≡ [])
IsReadable (err e) = (e ≢ []) × NoNewline e
IsReadable crash = ⊥

pub lines_of-append : (l s : Bytes) → NoNewline l → lines_of (l ++ newline ∷ s) ≡ l ∷ lines_of s
unfolding lines_of prefixed
lines_of-append [] s h = refl
lines_of-append (c ∷ l) s h = rw (lines_of-append l s h.1) (ground (arith, h.0))

lines_of-lines :
    (ls : List Bytes) (l s : Bytes)
    → All IsPlain (l ∷ ls)
    → lines_of (lines_text (l ∷ ls) ++ newline ∷ s) ≡ l ∷ (ls ++ lines_of s)
unfolding lines_text behind_lines
lines_of-lines [] l s (p, ps) =
    ap (λ t. lines_of (t ++ newline ∷ s)) (append-nil l) ∙ lines_of-append l s p.whole
lines_of-lines (k ∷ ls) l s (p, ps) =
    ap lines_of (append_assoc l (behind_lines (k ∷ ls)) (newline ∷ s))
    ∙ lines_of-append l _ p.whole
    ∙ ap (λ t. l ∷ t) (lines_of-lines ls k s ps)

protect-plain : (l : Bytes) → IsPlain l → protect hash l ≡ l
unfolding protect
protect-plain [] p = refl
protect-plain (c ∷ l) p = rw p.unmarked

protect-lines :
    (ls : List Bytes) → All IsPlain ls → map (λ l. line (protect hash l)) ls ≡ map line ls
protect-lines [] p = refl
protect-lines (l ∷ ls) (p, ps) = rw (protect-plain l p) (ap (λ t. line l ∷ t) (protect-lines ls ps))

pub hash-IsMark : IsMark hash
hash-IsMark = record { not_error = λ e. cc; not_fatal = λ e. cc; not_ok = λ e. cc }

pub drop_empty-first :
    (l : Bytes) (ls : List Bytes)
    → (l ≡ [] → ls ≡ [])
    → lines_text (drop_empty (l ∷ ls)) ≡ lines_text (l ∷ ls)
unfolding lines_text drop_empty behind_lines
drop_empty-first [] ls h = rw (h refl) refl
drop_empty-first (c ∷ l) ls h = refl

map_lines : (ls ks : List Bytes) → map line (ls ++ ks) ≡ map line ls ++ map line ks
map_lines [] ks = refl
map_lines (l ∷ ls) ks = ap (λ t. line l ∷ t) (map_lines ls ks)

pub ok_lines :
    (l : Bytes) (ls : List Bytes) (rest : Bytes)
    → All IsPlain (l ∷ ls)
    → map line (lines_of (reply_text (ok (lines_text (l ∷ ls))) ++ rest))
      ≡ answer hash (l ∷ ls) (map line (lines_of rest))
unfolding reply_text text
ok_lines l ls rest p =
    ap (λ t. map line (lines_of t))
      (append_assoc (lines_text (l ∷ ls)) (newline ∷ (text "#OK" ++ newline ∷ [])) rest)
    ∙ ap (map line) (lines_of-lines ls l ((text "#OK" ++ newline ∷ []) ++ rest) p)
    ∙ ap (λ t. map line (l ∷ (ls ++ t))) (lines_of-append (text "#OK") rest (omega arith))
    ∙ map_lines (l ∷ ls) (text "#OK" ∷ lines_of rest)
    ∙ ap (λ t. t ++ line (text "#OK") ∷ map line (lines_of rest)) (sym (protect-lines (l ∷ ls) p))

pub NoNewline-append : (a b : Bytes) → NoNewline a → NoNewline b → NoNewline (a ++ b)
NoNewline-append [] b h k = k
NoNewline-append (c ∷ a) b h k = (h.0, NoNewline-append a b h.1 k)

pub error_lines :
    (c : ℕ) (e rest : Bytes)
    → NoNewline (c ∷ e)
    → lines_of (reply_text (err (c ∷ e)) ++ rest) ≡ (text "#Error: " ++ c ∷ e) ∷ lines_of rest
unfolding reply_text text
error_lines c e rest h =
    ap (λ t. lines_of (text "#Error: " ++ c ∷ t)) (append_assoc e (newline ∷ []) rest)
    ∙ lines_of-append (text "#Error: " ++ c ∷ e) rest
        (NoNewline-append (text "#Error: ") (c ∷ e) (omega arith) h)

-- The results of so many calls of read_spp.
unfoldable pub reads : ℕ → Spp → Pipe → List (Result Bytes)
reads zero d p = []
reads (suc n) d p = let (r, p') = read_spp d p in r ∷ reads n d p'

-- The driver whose program is the client.
abbrev pub client : Bytes → Bytes → Spp
client prog idn = record { prog = prog; ch = hash; idn = idn }

module _ (prog idn input : Bytes) where
  special_error : (e : Bytes) → special hash prog [] (text "Error: " ++ e) ≡ stop (err e)
  unfolding special text beq
  special_error e = refl

  read_error :
      (e : Bytes) (out : List Got)
      → read_loop hash prog [] (line (text "#Error: " ++ e) ∷ out) ≡ (err e, out)
  unfolding text
  read_error e out =
      loop_stop hash prog hash-IsMark [] (text "#Error: " ++ e) (err e) out refl (special_error e)

  -- A reply of the client is read as what it was made of.
  read_reply :
      (r : Result Bytes) (rest : Bytes)
      → IsReadable r
      → read_spp
          (client prog idn)
          (record { output = map line (lines_of (reply_text r ++ rest)); input = input })
        ≡ (r, record { output = map line (lines_of rest); input = input })
  unfolding IsReadable
  read_reply (ok v) rest (l, ls, e, p, h) =
      rw (e, ok_lines l ls rest p)
        (read_spp-answer (client prog idn) (l ∷ ls) (map line (lines_of rest)) input hash-IsMark
          ∙ rw (drop_empty-first l ls h) refl)
  read_reply (err []) rest (ne, h) = absurd (ne refl)
  read_reply (err (c ∷ e)) rest (ne, h) =
      rw (error_lines c e rest h)
        (unfold read_spp in rw (read_error (c ∷ e) (map line (lines_of rest))) refl)
  read_reply crash rest h = absurd h

  pub reads-replies :
      (rs : List (Result Bytes))
      → All IsReadable rs
      → reads
          (length rs)
          (client prog idn)
          (record { output = map line (lines_of (replies_text rs)); input = input })
        ≡ rs
  unfolding reads replies_text
  reads-replies [] h = refl
  reads-replies (r ∷ rs) (h, hs) =
      rw (read_reply r (replies_text rs) h) (ap (λ t. r ∷ t) (reads-replies rs hs))

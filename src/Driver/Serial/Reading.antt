-- ===== src/Driver/Serial/Reading.antt =====
-- Driver_serial::read: an answer that comes in pieces.
use mathlib.Core.List.{flatten}
use device.Base.{
  ℕ, zero, suc, ◌≤◌, ◌≡◌, ◌≢◌, refl, sym, ap, ◌∙◌, Bool, true, false, some, List, [], ◌∷◌, ◌++◌,
  append-nil, append_assoc, arith, length, length_nonempty, Bytes, text, ok, err, inl, inr,
  Bool-cases,
}
use device.Driver.Utils.{trim_str}
use device.Driver.Utils.Laws.{EndsWith, trim_str_iff}
use device.Driver.Serial.{bytes, Sys, Serial, Round, next, done, round, finish, read_loop}

module _ (d : Serial) (set : d.ack ≢ []) where
  trim_false : (s t : Bytes) → t ≢ [] → ¬ EndsWith s t → trim_str s t ≡ (false, s)
  trim_false s t ne h = elim (Bool-cases (trim_str s t).0) [
    | inl e ↦
        let p : trim_str s t ≡ (true, (trim_str s t).1) = ground arith in
        absurd (h ((trim_str s t).1, (trim_str_iff s t ne).1 (trim_str s t).1 p))
    | inr e ↦
        let p : trim_str s t ≡ (false, (trim_str s t).1) = ground arith in
        p ∙ ap (λ x. (false, x)) ((trim_str_iff s t ne).2 (trim_str s t).1 p).0
  ]

  -- A mark that is not set is never found.
  trim_unset : (s t : Bytes) → (t ≢ [] → ¬ EndsWith s t) → trim_str s t ≡ (false, s)
  trim_unset s [] h = unfold trim_str in refl
  trim_unset s (c ∷ t) h = trim_false s (c ∷ t) (λ e. cc) (h (λ e. cc))

  round_ack : (m : Bytes) → round d (m ++ d.ack) ≡ done m false
  unfolding round
  round_ack m = rw (length_nonempty d.ack set, (trim_str_iff (m ++ d.ack) d.ack set).0 m refl)

  round_nack :
      (m : Bytes)
      → d.nack ≢ []
      → ¬ EndsWith (m ++ d.nack) d.ack
      → round d (m ++ d.nack) ≡ done m true
  unfolding round
  round_nack m ne h = rw (
    length_nonempty d.ack set,
    trim_false (m ++ d.nack) d.ack set h,
    (trim_str_iff (m ++ d.nack) d.nack ne).0 m refl,
  )

  round_next :
      (s : Bytes) → ¬ EndsWith s d.ack → (d.nack ≢ [] → ¬ EndsWith s d.nack) → round d s ≡ next s
  unfolding round
  round_next s h k = rw (length_nonempty d.ack set, trim_false s d.ack set h, trim_unset s d.nack k)

module _ {World : Type 0} (sys : Sys World) (d : Serial) where
  -- The port gives these pieces one after the other.
  abbrev pub Feeds : World → List Bytes → World → Type 0
  Feeds w [] w'' = w ≡ w''
  Feeds w (c ∷ cs) w'' = (c ≢ []) × (w' : World) × (sys.read w ≡ (bytes c, w')) × Feeds w' cs w''

  -- Until the last piece has come, what there is ends with neither mark, if there is a nack.
  abbrev pub Waits : Bytes → List Bytes → Type 0
  Waits ret [] = Unit
  Waits ret (c ∷ []) = Unit
  Waits ret (c ∷ c' ∷ cs) =
      (¬ EndsWith (ret ++ c) d.ack)
      × (d.nack ≢ [] → ¬ EndsWith (ret ++ c) d.nack)
      × Waits (ret ++ c) (c' ∷ cs)

  loop_piece :
      (fuel : ℕ) (ret c : Bytes) (w w' : World) (r : Round)
      → c ≢ []
      → sys.read w ≡ (bytes c, w')
      → round d (ret ++ c) ≡ r
      → read_loop sys d (suc fuel) ret w ≡ elim r [
        | next ret' ↦ read_loop sys d fuel ret' w'
        | done ret' fail ↦ (some (finish d ret' fail), w')
      ]
  unfolding read_loop
  loop_piece fuel ret [] w w' r ne e h = absurd (ne refl)
  loop_piece fuel ret (b ∷ bs) w w' r ne e h = ground arith

  read_pieces :
      (cs : List Bytes) (c ret m : Bytes) (fail : Bool) (fuel : ℕ) (w w'' : World)
      → d.ack ≢ []
      → Feeds w (c ∷ cs) w''
      → Waits ret (c ∷ cs)
      → round d (ret ++ flatten (c ∷ cs)) ≡ done m fail
      → length (c ∷ cs) ≤ fuel
      → read_loop sys d fuel ret w ≡ (some (finish d m fail), w'')
  unfolding flatten
  read_pieces cs c ret m fail zero w w'' a f v e h = absurd (omega arith)
  read_pieces [] c ret m fail (suc fuel) w w'' a f v e h =
      let one : round d (ret ++ c) ≡ done m fail =
        ap (λ s. round d (ret ++ s)) (sym (append-nil c)) ∙ e in
      loop_piece fuel ret c w f.1 (done m fail) f.0 f.2 one
      ∙ ap (λ x. (some (finish d m fail), x)) f.3
  read_pieces (c' ∷ cs) c ret m fail (suc fuel) w w'' a f v e h =
      let on = round_next d a (ret ++ c) v.0 v.1 in
      let e' = ap (round d) (append_assoc ret c (flatten (c' ∷ cs))) ∙ e in
      loop_piece fuel ret c w f.1 (next (ret ++ c)) f.0 f.2 on
      ∙ read_pieces cs c' (ret ++ c) m fail fuel f.1 w'' a f.3 v.2 e' (omega arith)

  -- An answer that ends with the ack sequence, in however many pieces it comes, is returned whole
  -- without that sequence, and with the -trim end cut off, if no piece but the last completes an ack,
  -- or a nack where one is set; an ack is set, and as many calls of ::read are enough as there are pieces.
  pub read_acked :
      (c : Bytes) (cs : List Bytes) (m : Bytes) (fuel : ℕ) (w w'' : World)
      → d.ack ≢ []
      → Feeds w (c ∷ cs) w''
      → Waits [] (c ∷ cs)
      → flatten (c ∷ cs) ≡ m ++ d.ack
      → length (c ∷ cs) ≤ fuel
      → read_loop sys d fuel [] w ≡ (some (ok (trim_str m d.trim).1), w'')
  unfolding finish
  read_acked c cs m fuel w w'' a f v e h =
      read_pieces cs c [] m false fuel w w'' a f v (ap (round d) e ∙ round_ack d a m) h

  -- One that ends with the nack sequence instead is thrown as an error with its text.
  pub read_nacked :
      (c : Bytes) (cs : List Bytes) (m : Bytes) (fuel : ℕ) (w w'' : World)
      → d.ack ≢ []
      → d.nack ≢ []
      → Feeds w (c ∷ cs) w''
      → Waits [] (c ∷ cs)
      → flatten (c ∷ cs) ≡ m ++ d.nack
      → ¬ EndsWith (m ++ d.nack) d.ack
      → length (c ∷ cs) ≤ fuel
      → read_loop sys d fuel [] w
        ≡ (some (err (text "nack from the device: " ++ (trim_str m d.trim).1)), w'')
  unfolding finish
  read_nacked c cs m fuel w w'' a n f v e k h =
      read_pieces cs c [] m true fuel w w'' a f v (ap (round d) e ∙ round_nack d a m n k) h

-- ===== src/Driver/Utils/Laws.antt =====
-- server/drv_utils.cpp: what trimming and the reading condition do.
use device.Base.{
  ℕ, ◌-◌, ◌≡◌, ◌≢◌, ◌⊎◌, inl, inr, refl, sym, ap, ◌∙◌, Bool, true, false, ◌||◌, [], ◌∷◌, ◌++◌,
  arith, ltb, leb, ◌==◌, length, take, drop, take-drop, length-append, drop-length-append,
  take-length-append, if◌then◌else◌, Bytes, beq_iff,
}
use device.Driver.Utils.{trim_str, qmark, qmark1w, check_read_cond}

suffix_length : (s t : Bytes) → length (s ++ t) - length t ≡ length s
suffix_length s t = omega (arith, length-append s t)

pub trim_str_iff :
    (str t : Bytes)
    → t ≢ []
    → ((s : Bytes) → str ≡ s ++ t → trim_str str t ≡ (true, s))
      × ((s : Bytes) → trim_str str t ≡ (true, s) → str ≡ s ++ t)
      × ((s : Bytes) → trim_str str t ≡ (false, s) → (s ≡ str) × ((r : Bytes) → str ≢ r ++ t))
trim_str_iff str t ne = (there, back, λ s h. (same s h, λ r e. apart r s e h))
  where
    nonempty : (t : Bytes) → t ≢ [] → ltb 0 (length t) ≡ true
    nonempty [] h = absurd (h refl)
    nonempty (c ∷ t) h = ground arith

    there' : (s : Bytes) → trim_str (s ++ t) t ≡ (true, s)
    there' s =
        unfold trim_str in
        (let fits : leb (length t) (length (s ++ t)) ≡ true = ground (arith, length-append s t) in
          rw (
            nonempty t ne,
            fits,
            suffix_length s t,
            drop-length-append s t,
            take-length-append s t,
            (beq_iff t t).1 refl,
          ))

    there : (s : Bytes) → str ≡ s ++ t → trim_str str t ≡ (true, s)
    there s e = rw e (there' s)

    back : (s : Bytes) → trim_str str t ≡ (true, s) → str ≡ s ++ t
    back s h =
        let n = length str - length t in
        let tail : drop n str ≡ t = unfold trim_str in ground (arith, beq_iff (drop n str) t) in
        let front : take n str ≡ s = unfold trim_str in ground arith in
        sym (take-drop n str) ∙ ap (λ a. a ++ drop n str) front ∙ ap (λ b. s ++ b) tail

    same : (s : Bytes) → trim_str str t ≡ (false, s) → s ≡ str
    same s h = unfold trim_str in ground arith

    apart : (r s : Bytes) → str ≡ r ++ t → trim_str str t ≡ (false, s) → ⊥
    apart r s e h = let k = there r e in cc

abbrev pub EndsWith : Bytes → Bytes → Type 0
EndsWith s t = (m : Bytes) × (s ≡ m ++ t)

-- Trimming a nonempty `t` either cuts it off the end of the text and says so, or leaves a text that
-- does not end with `t` as it is.
pub trim_str_lem :
    (str t : Bytes)
    → t ≢ []
    → ((s : Bytes) × (trim_str str t ≡ (true, s)) × (str ≡ s ++ t))
      ⊎ ((trim_str str t ≡ (false, str)) × ¬ EndsWith str t)
trim_str_lem str t ne = go (trim_str str t) refl
  where
    go :
        (r : Bool × Bytes)
        → trim_str str t ≡ r
        → ((s : Bytes) × (trim_str str t ≡ (true, s)) × (str ≡ s ++ t))
          ⊎ ((trim_str str t ≡ (false, str)) × ¬ EndsWith str t)
    go (true, s) e = inl (s, e, (trim_str_iff str t ne).1 s e)
    go (false, s) e =
        let (same, apart) = (trim_str_iff str t ne).2 s e in
        inr (e ∙ ap (λ x. (false, x)) same, λ (r, k). apart r k)

-- The text before the first space.
pub first_word : Bytes → Bytes
first_word [] = []
first_word (c ∷ s) = if c == b' ' then [] else c ∷ first_word s

pub has_byte : ℕ → Bytes → Bool
has_byte c [] = false
has_byte c (d ∷ s) = d == c || has_byte c s

-- `qmark` asks for an answer exactly if the message has a question mark, and `qmark1w` exactly if its
-- first word has one.
pub check_read_cond_lem :
    (msg : Bytes)
    → (check_read_cond msg qmark ≡ has_byte b'?' msg)
      × (check_read_cond msg qmark1w ≡ has_byte b'?' (first_word msg))
unfolding check_read_cond has_byte first_word
check_read_cond_lem [] = (refl, refl)
check_read_cond_lem (c ∷ s) =
    (ground (arith, (check_read_cond_lem s).0), ground (arith, (check_read_cond_lem s).1))

-- ===== src/Driver/Utils.antt =====
-- server/drv_utils.h and server/drv_utils.cpp.
pub mod Laws
use device.Base.{
  ℕ, suc, ◌-◌, Bool, true, false, ◌&&◌, Option, none, some, [], ◌∷◌, ◌++◌, ltb, leb, ◌==◌, length,
  take, drop, if◌then◌else◌, Bytes, text, beq, Result, ok, err,
}

-- trim_str(str, trim): whether the end was cut off, and what `str` is then
unfoldable pub trim_str : Bytes → Bytes → Bool × Bytes
trim_str str trim =
    if ltb 0 (length trim)
      && (leb (length trim) (length str) && beq (drop (length str - length trim) str) trim)
    then (true, take (length str - length trim) str)
    else (false, str)

pub data ReadCond : Type 0 where
  always never qmark qmark1w : ReadCond

unfoldable pub str_to_read_cond : Bytes → Result ReadCond
str_to_read_cond str =
    if beq str (text "always")
    then ok always
    else if beq str (text "never")
    then ok never
    else if beq str (text "qmark")
    then ok qmark
    else if beq str (text "qmark1w")
    then ok qmark1w
    else err (text "unknown -read_cond value: " ++ str)

-- msg.find(c), with `none` for npos
unfoldable pub find : ℕ → Bytes → Option ℕ
find c [] = none
find c (d ∷ s) =
    let rest = elim (find c s) as (λ _. Option ℕ) [ none ↦ none | some i ↦ some (suc i) ] in
    if d == c then some 0 else rest

-- a < b on positions, where npos is the greatest
unfoldable pub before : Option ℕ → Option ℕ → Bool
before none b = false
before (some i) none = true
before (some i) (some j) = ltb i j

-- check_read_cond; the throw behind the switch is for a value that is not of the enumeration
unfoldable pub check_read_cond : Bytes → ReadCond → Bool
unfolding find before
check_read_cond msg always = true
check_read_cond msg never = false
check_read_cond msg qmark = elim (find b'?' msg) [ none ↦ false | some _ ↦ true ]
check_read_cond msg qmark1w = before (find b'?' msg) (find b' ' msg)

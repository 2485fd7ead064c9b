-- ===== src/Driver/Setup/Laws.antt =====
-- server/drv_serial.cpp: what the options of the constructor do to the flags of the port.
use device.Base.{
  ℕ, ◌≡◌, ◌≢◌, refl, ap, ◌∙◌, arith, Bool, true, false, ◌||◌, if◌then◌else◌, Bytes, text, beq, ok,
}
use device.Driver.Setup
use device.Driver.Setup.{
  Termios, Field, Options, Doubles, c_iflag, c_oflag, c_cflag, c_lflag, Constant, cs7, cs8, csize,
  cstopb, parenb, parodd, get_field, put_field, with_bits, without_bits, set_bits, clear_bits,
  assigned, set_opt,
}
use device.Driver.Setup.Parity.{set_parity}

get-put : (p : Field) (f : Setup.Flags) (t : Termios) → get_field p (put_field p f t) ≡ f
unfolding get_field put_field
get-put c_iflag f t = refl
get-put c_oflag f t = refl
get-put c_cflag f t = refl
get-put c_lflag f t = refl

get-put_other :
    (p q : Field) (f : Setup.Flags) (t : Termios)
    → p ≢ q
    → get_field q (put_field p f t) ≡ get_field q t
unfolding get_field put_field
get-put_other c_iflag c_iflag f t h = absurd (h refl)
get-put_other c_iflag c_oflag f t h = refl
get-put_other c_iflag c_cflag f t h = refl
get-put_other c_iflag c_lflag f t h = refl
get-put_other c_oflag c_iflag f t h = refl
get-put_other c_oflag c_oflag f t h = absurd (h refl)
get-put_other c_oflag c_cflag f t h = refl
get-put_other c_oflag c_lflag f t h = refl
get-put_other c_cflag c_iflag f t h = refl
get-put_other c_cflag c_oflag f t h = refl
get-put_other c_cflag c_cflag f t h = absurd (h refl)
get-put_other c_cflag c_lflag f t h = refl
get-put_other c_lflag c_iflag f t h = refl
get-put_other c_lflag c_oflag f t h = refl
get-put_other c_lflag c_cflag f t h = refl
get-put_other c_lflag c_lflag f t h = absurd (h refl)

module _ {F : Type 0} (opts : Options F) where
  -- An option that exists sets exactly the bits of its mask to its value: every other bit of the
  -- field and every other field keeps its value.
  pub set_opt_lem :
      (name : Bytes) (p q : Field) (mask : Setup.Flags) (on : Bool) (t : Termios) (i : ℕ)
      → opts.exists name ≡ true
      → opts.get_bool name true ≡ ok on
      → p ≢ q
      → ((set_opt opts name p mask t).0 ≡ ok tt)
        × (get_field p (set_opt opts name p mask t).1 i ≡ (if mask i then on else get_field p t i))
        × (get_field q (set_opt opts name p mask t).1 ≡ get_field q t)
  unfolding set_opt assigned set_bits clear_bits with_bits without_bits
  set_opt_lem name p q mask true t i h k ne =
      rw (h, k)
        (
          refl,
          ap (λ f. f i) (get-put p (with_bits (get_field p t) mask) t) ∙ ground arith,
          get-put_other p q (with_bits (get_field p t) mask) t ne,
        )
  set_opt_lem name p q mask false t i h k ne =
      rw (h, k)
        (
          refl,
          ap (λ f. f i) (get-put p (without_bits (get_field p t) mask) t) ∙ ground arith,
          get-put_other p q (without_bits (get_field p t) mask) t ne,
        )

-- The three kinds of parity that the code tells apart.
pub data Parity : Type 0 where
  none8 even7 odd7 : Parity

abbrev pub parity_text : Parity → Bytes
parity_text none8 = text "8N1"
parity_text even7 = text "7E1"
parity_text odd7 = text "7O1"

-- termios.h: CS7 and CS8 lie in CSIZE, and the other flags and CSIZE do not overlap.
pub record IsLayout (bits : Constant → Setup.Flags) (i : ℕ) : Type 0 where
  pub cs7_in : bits cs7 i ≡ true → bits csize i ≡ true
  pub cs8_in : bits cs8 i ≡ true → bits csize i ≡ true
  pub size_stop : bits csize i ≡ true → bits cstopb i ≡ false
  pub size_parity : bits csize i ≡ true → bits parenb i ≡ false
  pub size_odd : bits csize i ≡ true → bits parodd i ≡ false
  pub stop_parity : bits cstopb i ≡ true → bits parenb i ≡ false
  pub stop_odd : bits cstopb i ≡ true → bits parodd i ≡ false
  pub parity_odd : bits parenb i ≡ true → bits parodd i ≡ false

-- The bit `i` of the control flags for a parity, where it was `old` before.
abbrev pub parity_bit : (Constant → Setup.Flags) → Parity → ℕ → Bool → Bool
parity_bit bits none8 i old =
    if bits csize i then bits cs8 i else if bits cstopb i || bits parenb i then false else old
parity_bit bits even7 i old =
    if bits csize i
    then bits cs7 i
    else if bits cstopb i || bits parodd i
    then false
    else (bits parenb i || old)
parity_bit bits odd7 i old =
    if bits csize i
    then bits cs7 i
    else if bits cstopb i
    then false
    else (bits parenb i || (bits parodd i || old))

module _ {F : Type 0} (opts : Options F) (doubles : Doubles F) (bits : Constant → Setup.Flags)
    (errpref : Bytes) where
  -- With the flags of termios.h, 8N1 means eight bits, one stop bit and no parity; 7E1 and 7O1 mean
  -- seven bits, one stop bit, and even or odd parity; every other control flag stays.
  pub set_parity_lem :
      (p : Parity) (t : Termios) (i : ℕ)
      → IsLayout bits i
      → ((set_parity opts doubles bits errpref (parity_text p) t).0 ≡ ok tt)
        × ((set_parity opts doubles bits errpref (parity_text p) t).1.cflag i
            ≡ parity_bit bits p i (t.cflag i))
  unfolding set_parity set_bits clear_bits with_bits without_bits get_field put_field beq text
  set_parity_lem none8 t i v = (refl, ground arith)
  set_parity_lem even7 t i v = (refl, ground arith)
  set_parity_lem odd7 t i v = (refl, ground arith)

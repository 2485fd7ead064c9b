-- ===== src/Driver/Usbtmc/Reading.antt =====
-- The loop of Driver_usbtmc::read in server/drv_usbtmc.cpp: as many rounds as the device gives pieces.
use mathlib.Core.List.{flatten}
use device.Base.{
  ℕ, zero, suc, ◌≤◌, ◌≡◌, refl, sym, ◌∙◌, ap, arith, true, false, some, List, [], ◌∷◌, ◌++◌,
  append_assoc, append-nil, length, if◌then◌else◌, Bytes, text, Result, ok, err,
}
use device.Driver.Usbtmc.{
  Usb, Usbtmc, more_available, recover, status_read, piece_read, read_loop, write, ask,
}
use device.Driver.Utils.{trim_str, check_read_cond}

-- How a reading ends: no more data, or an error of ::read or of the status byte.
pub data End : Type 0 where
  complete : End
  unread : Bytes → End
  no_status : Bytes → End

module _ {World : Type 0} (usb : Usb World) (d : Usbtmc) where
  -- The device gives these pieces, and then the reading ends so.
  pub data Gives : World → List Bytes → End → World → Type 0 where
    last :
        {b : Bytes} {stb : ℕ} {w w' w'' : World}
        → usb.read w ≡ (ok b, w')
        → usb.read_stb w' ≡ (ok stb, w'')
        → more_available stb ≡ false
        → Gives w (b ∷ []) complete w''
    more :
        {b : Bytes} {bs : List Bytes} {end : End} {stb : ℕ} {w w' w'' t : World}
        → usb.read w ≡ (ok b, w')
        → usb.read_stb w' ≡ (ok stb, w'')
        → more_available stb ≡ true
        → Gives w'' bs end t
        → Gives w (b ∷ bs) end t
    broken_off :
        {e : Bytes} {w w' : World}
        → usb.read w ≡ (err e, w')
        → Gives w [] (unread e) (recover usb d w')
    blind :
        {b e : Bytes} {w w' w'' : World}
        → usb.read w ≡ (ok b, w')
        → usb.read_stb w' ≡ (err e, w'')
        → Gives w (b ∷ []) (no_status e) w''

  -- What comes of it.
  unfoldable pub outcome : End → Bytes → Result Bytes
  outcome complete ret = ok (trim_str ret d.trim).1
  outcome (unread e) ret = err (d.errpref ++ (text "read error: " ++ e))
  outcome (no_status e) ret = err (d.errpref ++ (text "can't get status byte: " ++ e))

  pub read_loop-outcome :
      (ret : Bytes) (fuel : ℕ) {w t : World} {bs : List Bytes} {end : End}
      → Gives w bs end t
      → suc (length bs) ≤ fuel
      → read_loop usb d fuel ret w ≡ (some (outcome end (ret ++ flatten bs)), t)
  unfolding read_loop piece_read status_read outcome flatten
  read_loop-outcome ret zero g h = absurd (omega arith)
  read_loop-outcome ret (suc fuel) {t = t} (last {b = b} r s m) h =
      rw (r, s, m) (ap (λ x. (some (ok (trim_str (ret ++ x) d.trim).1), t)) (sym (append-nil b)))
  read_loop-outcome ret (suc fuel) {t = t} {end = end} (more {b = b} {bs = bs} r s m g) h =
      rw (r, s, m)
        (read_loop-outcome (ret ++ b) fuel g (omega arith)
          ∙ ap (λ x. (some (outcome end x), t)) (append_assoc ret b (flatten bs)))
  read_loop-outcome ret (suc fuel) (broken_off r) h = rw r refl
  read_loop-outcome ret (suc fuel) (blind r s) h = rw (r, s) refl

  -- ask, behind a message that was written: an answer is read exactly if the message asks for one.
  pub ask-outcome :
      {w' t : World} {bs : List Bytes} {end : End} (msg : Bytes) (w : World) (fuel : ℕ)
      → d.idn ≡ []
      → write usb d msg w ≡ (ok tt, w')
      → Gives w' bs end t
      → suc (length bs) ≤ fuel
      → ask usb d fuel msg w ≡ (
          if check_read_cond msg d.read_cond
          then (some (outcome end (flatten bs)), t)
          else (some (ok []), w'))
  unfolding ask outcome
  ask-outcome msg w fuel e h g n = rw (e, h, read_loop-outcome [] fuel g n) refl

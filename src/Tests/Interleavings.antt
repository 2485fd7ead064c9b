-- ===== src/Tests/Interleavings.antt =====
-- The theorems on threads, on two connections that share a device.
use device.Base.{ℕ, ◌≡◌, refl, arith, List, [], ◌∷◌, text, true, false, ok, crash}
use device.Map.{has, number_key}
use device.Manager.Actions.{asks, uses, locks, unlocks, closes}
use device.Manager.Threads.{
  returned, Threads, Event, calls, goes, interleave, step, begin, move, moved, placed, is_returned,
  finished, after,
}
use device.Manager.Threads.Alone.{goes_on}
use device.Manager.Threads.Open.{IsFine, keeps_open, interleave-IsFine}
use device.Manager.Threads.Open.Moves.{HasDriver, Fine}
use device.Manager.Threads.Races.{lock_shared, closed_ask_crashes}
use device.Tests.Sample.{Opt, libs, echo, echo_safe, held}

-- Nobody is in a call; connection 1 uses the device.
abbrev quiet : Threads Opt ℕ ℕ
quiet = record { device = record held { locked = false }; world = 0; pc = λ c. returned (ok []) }

abbrev ping : List Event
ping = calls 3 asks (text "ping") ∷ goes_on libs echo 4 3

-- Connection 2 has passed the test of use when connection 1 is about to lock.
abbrev raced : Threads Opt ℕ ℕ
raced = interleave libs echo (calls 2 uses [] ∷ goes 2 ∷ goes 2 ∷ calls 1 locks [] ∷ []) quiet

lock_shared_example :
    ((interleave libs echo (goes 1 ∷ goes 2 ∷ []) raced).pc 1 ≡ returned (ok []))
    × ((interleave libs echo (goes 1 ∷ goes 2 ∷ []) raced).pc 2 ≡ returned (ok []))
    × ((interleave libs echo (goes 1 ∷ goes 2 ∷ []) raced).device.locked ≡ true)
    × (has 1 (interleave libs echo (goes 1 ∷ goes 2 ∷ []) raced).device.users ≡ true)
    × (has 2 (interleave libs echo (goes 1 ∷ goes 2 ∷ []) raced).device.users ≡ true)
    × ((interleave libs echo
          (calls 2 unlocks [] ∷ [])
          (interleave libs echo (goes 1 ∷ goes 2 ∷ []) raced)).device.locked
        ≡ false)
unfolding interleave step begin move moved placed is_returned finished after has
lock_shared_example = lock_shared libs echo 1 2 0 raced (ground arith) refl refl refl refl

abbrev about_to_ask : Threads Opt ℕ ℕ
about_to_ask = interleave libs echo (calls 1 asks (text "ping") ∷ []) quiet

closed_ask_crashes_example :
    (interleave libs echo (calls 2 closes [] ∷ goes 1 ∷ []) about_to_ask).pc 1 ≡ returned crash
unfolding interleave step begin move moved placed is_returned finished after has
closed_ask_crashes_example =
    closed_ask_crashes libs echo 1 2 (text "ping") about_to_ask (ground arith) refl refl

abbrev locked : Threads Opt ℕ ℕ
locked = record quiet { device = held }

abbrev tries : List Event
tries =
    calls 2 uses []
    ∷ calls 1 asks (text "ping")
    ∷ goes 2
    ∷ goes 1
    ∷ goes 2
    ∷ calls 2 unlocks []
    ∷ calls 3 locks []
    ∷ goes 3
    ∷ []

interleave-IsFine_example : IsFine libs echo echo_safe (interleave libs echo tries locked)
unfolding HasDriver Fine keeps_open
interleave-IsFine_example =
    interleave-IsFine libs echo echo_safe tries locked
      (record { has_driver = λ e. cc; fine = λ j e. cc })
      (refl, (refl, (refl, (refl, (refl, (refl, (refl, (refl, tt))))))))

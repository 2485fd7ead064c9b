-- ===== src/Tests/Devices.antt =====
-- The theorems on one device, on concrete devices.
use device.Base.{ℕ, All, ◌≡◌, refl, some, none, List, [], ◌∷◌, ◌++◌, text, false, ok, map}
use mathlib.Core.List.{flatten}
use device.Map.{has, lookup, number_key}
use device.Device.{Device, ask, log_get, log_start}
use device.Device.Log.{latest, Line, line_text, log_lines, log_get-log_start, ask-logs, answer_line}
use device.Map.Sets.{IsAscending, Above}
use device.Manager.Access.{Access, view}
use device.Manager.Access.Traces.{
  Call, Follows, IsRefused, serve, events, keeps_lock, serve-Follows, lock_holds,
}
use device.Manager.Actions.{asks, releases, infos, locks}
use device.Tests.Sample.{Opt, libs, echo, echo_safe, held, held-IsSound}

-- A device that no connection uses, and one that connection 1 uses.
abbrev unused : Device Opt ℕ
unused = record held { drv = none; users = []; locked = false; log_bufs = [] }

abbrev used : Device Opt ℕ
used = record held { locked = false }

abbrev two_lines : List Line
two_lines = (text ">> ", text "ping") ∷ (text "<< ", text "pong") ∷ []

log_get-log_start_example :
    ((log_get 7 (log_lines two_lines (log_start 7 held))).0
      ≡ ok (flatten (latest 1024 (map line_text two_lines))))
    × (lookup 7 (log_get 7 (log_lines two_lines (log_start 7 held))).1.log_bufs ≡ some [])
log_get-log_start_example = log_get-log_start 7 two_lines held

ask-logs_example :
    (lookup 2 (ask echo 1 (text "ping") (held, 0)).1.0.log_bufs
      ≡ some (
          latest 1024 (
            []
            ++ line_text (text ">> ", text "ping")
              ∷ line_text (answer_line echo (echo.ask 0 (text "ping") 0).0)
              ∷ [])))
    × ((ask echo 1 (text "ping") (held, 0)).0 ≡ ok (text "ping"))
unfolding has lookup latest
ask-logs_example =
    ask-logs echo 1 2 (text "ping") [] held 0 0 refl refl refl (echo_safe.ask 0 (text "ping") 0)

-- While connection 1 holds the lock, others ask, look and leave, and it asks itself.
abbrev busy : List Call
busy =
    (asks, 2, text "a")
    ∷ (releases, 2, [])
    ∷ (infos, 3, [])
    ∷ (asks, 1, text "b")
    ∷ (locks, 3, [])
    ∷ []

held-IsAscending : IsAscending held.users
unfolding IsAscending Above
held-IsAscending = (tt, tt)

serve-Follows_example :
    Follows (events libs echo busy (held, 0)) (view held) (view (serve libs echo busy (held, 0)).0)
serve-Follows_example = serve-Follows libs echo busy held 0 held-IsSound held-IsAscending

lock_holds_example :
    (view (serve libs echo busy (held, 0)).0 ≡ Access.held 1)
    × All (IsRefused 1) (events libs echo busy (held, 0))
unfolding has keeps_lock
lock_holds_example =
    lock_holds libs echo 1 busy held 0 held-IsSound held-IsAscending refl refl
      (refl, (refl, (refl, (refl, (refl, tt)))))

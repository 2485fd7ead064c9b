-- ===== src/Tests/Factories.antt =====
-- server/drv.cpp: the theorem on the factory, with drivers that echo; and names of drivers.
use device.Base.{ℕ, ◌≡◌, ◌+◌, refl, true, false, none, some, text, beq, ok}
use device.Driver.Factory
use device.Driver.Factory.{Build, Classes, kind_of, factory, factory-NoCrash}
use device.Tests.Sample.{Opt, echo}

abbrev build : Build
build = record { use_gpib = false; use_vxi = true }

abbrev classes : Classes Opt ℕ ℕ
classes = record { construct = λ k o w. (ok 0, w + 1); ask = echo.ask; destroy = echo.destroy }

kind_of_gpib : kind_of build (text "gpib") ≡ none
unfolding kind_of beq text
kind_of_gpib = refl

kind_of_vxi : kind_of build (text "vxi") ≡ some Factory.vxi
unfolding kind_of beq text
kind_of_vxi = refl

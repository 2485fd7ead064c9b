-- ===== src/Tests/Managers.antt =====
-- The theorems on the manager, on a manager with the devices of the sample configuration; and the
-- examples of server/dev_manager.test.cpp.
use device.Base.{ℕ, ◌≡◌, ◌⊎◌, refl, arith, [], ◌∷◌, ◌++◌, Bytes, text, beq, ok, err}
use device.Map.{lookup, number_key, bytes_key}
use device.Manager.{Manager}
use device.Manager.Url.{slash, cut, parts, skip_slash, parse_url}
use device.Manager.Actions.{asks, call_device, put_back}
use device.Manager.Addressing.{run_addressed}
use device.Manager.Conf.{read_conf}
use device.Manager.Failure.{read_conf_atomic}
use device.Manager.Names.Distinct.{Named, Hashed, NameFits}
use device.Manager.Run.{run}
use device.Manager.Soundness.{Sound, AllSound}
use device.Tests.Sample.{Opt, echo, libs, held, held-IsSound}

-- parse_url
parse_url_three :
    parse_url (text "/abc/def/ghi/jkl")
    ≡ record { act = text "abc"; arg = text "def"; msg = text "ghi/jkl" }
unfolding parse_url cut parts skip_slash text
parse_url_three = refl

parse_url_plain : parse_url (text "abc") ≡ record { act = text "abc"; arg = []; msg = [] }
unfolding parse_url cut parts skip_slash text
parse_url_plain = refl

-- One device, used by connection 1, and the names of two connections.
abbrev manager : Manager Opt ℕ
manager = record {
  devices = (text "gen", held) ∷ [];
  devfile = text "devices.cfg";
  conn_names = (1, b'#' ∷ 1 ∷ []) ∷ (2, text "bob") ∷ [];
}

manager-Sound : Sound manager
unfolding AllSound
manager-Sound = (held-IsSound, tt)

manager-Named : Named libs manager
unfolding Hashed NameFits lookup text
manager-Named = record {
  hashed = (λ e. refl, (λ e. absurd (cc), tt));
  distinct = λ i j n p q. ground arith;
}

run_addressed_example :
    run libs echo
      (slash ∷ (text "ask" ++ slash ∷ (text "gen" ++ slash ∷ text "*idn?")))
      1
      (manager, 0)
    ≡ put_back libs echo
        (text "gen")
        manager
        (call_device libs echo asks 1 (text "*idn?") (held, 0))
unfolding text lookup beq
run_addressed_example =
    run_addressed libs echo asks (text "gen") (text "*idn?") 1 manager 0 (λ e. cc) (omega arith)

read_conf_atomic_example :
    ((read_conf libs (manager, 0)).0 ≡ ok tt)
    ⊎ ((e : Bytes) × ((read_conf libs (manager, 0)).0 ≡ err e)
        × ((read_conf libs (manager, 0)).1.0 ≡ manager))
read_conf_atomic_example = read_conf_atomic libs manager 0

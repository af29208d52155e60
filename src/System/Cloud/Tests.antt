-- ===== src/System/Cloud/Tests.antt =====
-- A server that needs one file and sends another of two bytes.
use julius_os.Prelude.{ℕ, ◌+◌, ◌≡◌, refl, false, Option, none, some, [], ◌∷◌, arith}
use julius_os.Prelude.Text.{Text, codes, text_eq}
use julius_os.System.Stream.{Bytes, has_newline}
use julius_os.System.Cloud.{
  Local, Cloud, World, init, load_config, save_config, find_local, synced, run,
}
use julius_os.System.Cloud.Config.{load_config-save_config, tested-IsPlain, has-HasNoEquals}
use julius_os.System.Cloud.Syncing.{Sending, stream, writes, known, count_known, run-synced}

abbrev same : Text → Text
same t = t

abbrev photo : Local
photo = record { name = codes "a"; path = codes "/c/a"; size = 1; hash = [] }

abbrev first_byte : Bytes → Option ℕ
first_byte [] = none
first_byte (n ∷ _) = some n

abbrev world : World
world = record {
  read_file = λ path. some (9 ∷ []);
  cannot_open = λ path. false;
  names = λ line. some (codes "a" ∷ [], codes "b" ∷ []);
  size = first_byte;
}

abbrev two_bytes : Sending
two_bytes = record { name = codes "b"; line = 2 ∷ []; content = 7 ∷ 8 ∷ [] }

abbrev fresh : Cloud
fresh = init same none

run-synced_example :
    (s' : Cloud) × (run world 99
        (photo ∷ [])
        []
        (codes "now")
        ((5 ∷ 10 ∷ 2 ∷ []) ∷ (10 ∷ 7 ∷ 8 ∷ []) ∷ [])
        fresh
      ≡ some s')
    × (s'.written ≡ writes (two_bytes ∷ []) [])
    × (s'.status ≡ synced (count_known (photo ∷ []) (codes "a" ∷ []) + 1))
    × (s'.syncing ≡ false)
unfolding init load_config
run-synced_example =
    run-synced world 99 (photo ∷ []) [] (codes "now") ((5 ∷ 10 ∷ 2 ∷ []) ∷ (10 ∷ 7 ∷ 8 ∷ []) ∷ [])
      fresh (5 ∷ []) (codes "a" ∷ []) (two_bytes ∷ []) (omega arith, (omega arith, tt))
      (unfold stream in refl) (unfold has_newline in refl) (omega arith) refl ((9 ∷ [], refl), tt)
      ((unfold has_newline in refl), refl, refl, omega arith, tt)

-- One file sent, one received.
two_synced : count_known (photo ∷ []) (codes "a" ∷ []) + 1 ≡ 2
unfolding count_known known find_local text_eq
two_synced = refl

abbrev home : Cloud
home = record fresh { server_ip = codes "10.0.0.9" }

load_config-save_config_example :
    load_config same (save_config home).saved fresh
    ≡ record fresh { server_ip = codes "10.0.0.9"; last_sync = codes "Never" }
unfolding init
load_config-save_config_example =
    load_config-save_config same home fresh (tested-IsPlain (codes "10.0.0.9") refl)
      (unfold load_config in tested-IsPlain (codes "Never") refl)
      (has-HasNoEquals (codes "10.0.0.9") refl)
      (unfold load_config in has-HasNoEquals (codes "Never") refl) refl refl

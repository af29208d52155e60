-- ===== src/Apps/Firewall/Tests.antt =====
-- Two rules of iptables, the second of them selected.
use julius_os.Prelude.{ℕ, ◌==◌, ◌≡◌, inl, refl, Bool, none, List, [], ◌∷◌, ◌++◌}
use julius_os.Prelude.Text.{Text, codes}
use julius_os.Events.{Key, k_a, k_r, k_1, k_2, keydown, key_index}
use julius_os.Outcome.{after, Returns}
use julius_os.Apps.Table.{output}
use julius_os.Apps.Firewall.{Rule, Firewall, Answers, init, list, append, handle_input}
use julius_os.Apps.Firewall.Laws.{IsFitting, handle_input-IsFitting}
use julius_os.Apps.Firewall.Add.{run, typed, returns, add_appends}

abbrev is_blank : ℕ → Bool
is_blank c = c == 32

abbrev ssh : Rule
ssh = record { num = codes "1"; target = codes "ACCEPT"; proto = codes "tcp"; source = codes "any" }

abbrev dns : Rule
dns = record ssh { num = codes "2"; proto = codes "udp" }

abbrev listing : Answers
listing = record { listing = output (codes "Chain\nnum\n1 ACCEPT tcp --"); failure = none }

abbrev two_rules : Firewall
two_rules = record init { rules = ssh ∷ dns ∷ []; cursor = record { selected = 1; scroll = 0 } }

handle_input-IsFitting_example :
    IsFitting is_blank (after (handle_input is_blank listing init (keydown k_r [])))
handle_input-IsFitting_example =
    handle_input-IsFitting is_blank listing init (keydown k_r []) (tt, tt, tt, inl refl, inl refl)

-- The keys 2 and 1.
abbrev twenty_one : List (Key × Text)
twenty_one = (k_2, codes "2") ∷ (k_1, codes "1") ∷ []

add_appends_example :
    Returns
      (λ s'.
        (s'.commands ≡ append (codes "tcp") (codes "21") (codes "ACCEPT") ∷ []) × (s'.mode ≡ list))
      (run is_blank listing
        (keydown k_a (codes "a")
          ∷ (typed is_blank twenty_one ++ returns is_blank (13 ∷ []) (13 ∷ []) (13 ∷ [])))
        two_rules)
unfolding key_index
add_appends_example =
    add_appends is_blank listing (codes "a") (13 ∷ []) (13 ∷ []) (13 ∷ []) twenty_one two_rules refl
      ((refl, refl, refl), ((refl, refl, refl), tt)) refl

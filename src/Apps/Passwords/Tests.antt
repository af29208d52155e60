-- ===== src/Apps/Passwords/Tests.antt =====
-- One stored password, and a second that is typed.
use julius_os.Prelude.{refl, some, [], ◌∷◌, arith}
use julius_os.Prelude.Text.{codes}
use julius_os.Events.{k_return, k_v, keydown}
use julius_os.Outcome.{Returns, after}
use julius_os.Apps.Passwords.{Entry, PasswordManager, add, at_password, init, load, handle_input}
use julius_os.Apps.Passwords.Laws.{
  IsSound, EntersHidden, handle_input-IsSound, handle_input-EntersHidden,
}

abbrev router : Entry
router = record { site = codes "router"; user = codes "admin"; password = codes "secret" }

abbrev stored : PasswordManager
stored = init (some (router ∷ []))

abbrev typing : PasswordManager
typing = record stored { mode = add; stage = at_password; inputs = router }

handle_input-IsSound_example : Returns IsSound (handle_input typing (keydown k_return []))
unfolding init
handle_input-IsSound_example =
    handle_input-IsSound typing (keydown k_return [])
      (unfold load in (omega arith, (λ v. cc), refl, ((refl, refl, refl), tt), (refl, refl)))

handle_input-EntersHidden_example : EntersHidden (after (handle_input stored (keydown k_v [])))
unfolding init
handle_input-EntersHidden_example = handle_input-EntersHidden stored (keydown k_v []) (λ v. cc)

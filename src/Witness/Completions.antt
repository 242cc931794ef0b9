-- ===== src/Witness/Completions.antt =====
-- The daemon handles a message, and runs from its start.
use dis_store.Prelude.{◌≡◌, refl, true, some}
use dis_store.Daemon.Accounts.{Accounted}
use dis_store.Daemon.Lend.{Lending}
use dis_store.Daemon.Completion.{Wc, on_completion}
use dis_store.Daemon.Completion.Handled.{on_completion-Accounted}
use dis_store.Daemon.Run.Owned.{Consistent}
use dis_store.Daemon.Run.Kept.{Reach-Consistent}
use dis_store.Samples.Running.{left, left-Reach}
use dis_store.Samples.Lender.{region, lent, lent-Accounted, lent-Sized, lent-Expected}

abbrev received : Wc
received = record { success = true; recv = true }

on_completion-Accounted_example :
    (l' : Lending) × (on_completion region lent received ≡ some l') × Accounted l'.remote
on_completion-Accounted_example =
    on_completion-Accounted region lent received lent-Accounted lent-Sized refl (λ e. lent-Expected)

Reach-Consistent_example : Consistent left
Reach-Consistent_example = Reach-Consistent region 20 left left-Reach

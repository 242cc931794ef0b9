-- ===== src/Witness/Trigger.antt =====
-- A round of the trigger.
use dis_store.Prelude.{arith}
use dis_store.Trigger.{trigger_round}
use dis_store.Trigger.Round.{Rounded, trigger_round-Rounded}
use dis_store.Samples.Heated.{heated, heated_size}

trigger_round-Rounded_example : let (s', asked) = trigger_round heated in Rounded heated s' asked 1
trigger_round-Rounded_example = trigger_round-Rounded heated 1 heated_size (omega arith)

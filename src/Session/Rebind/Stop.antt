-- ===== src/Session/Rebind/Stop.antt =====
-- A STOP from end to end.
use dis_store.Session.{Session}

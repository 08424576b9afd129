-- ===== src/Engine/Undisturbed.antt =====
-- _InterventionEngine.execute (src/dogdb/proxy/connection.py) in a session where no fault can fire.
use dogdb.Platform.{Platform}
use dogdb.Session.{Session}

-- ===== src/Udp/Dontknow.antt =====
-- dnrd-2.20.3/src/udp.c with master.c: the test that gives a query up is that of master_dontknow.
use dnrd.Prelude.{ℕ, ◌&&◌, ◌≡◌, arith, List}
use dnrd.Master.Search.{is_found}
use dnrd.Master.Lookup.{master_dontknow}
use dnrd.Udp.Request.{RequestCall, is_dontknow}

-- `is_dontknow` says whether `master_dontknow` assembles a packet, where the master is on.
pub is_dontknow-master_dontknow :
    (call : RequestCall) (msg : List ℕ)
    → is_dontknow call msg
      ≡ (call.master_onoff && is_found (master_dontknow call.valid call.stack msg))
unfolding is_dontknow master_dontknow
is_dontknow-master_dontknow call msg = ground arith

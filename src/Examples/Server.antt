-- ===== src/Examples/Server.antt =====
-- The theorem on the server's connections at a concrete run.
use mesher.Prelude.{[], ◌∷◌, refl}
use mesher.Server.{started, accept, loop_ends, stop, find, Run, start, accepted, loop_ended}
use mesher.Server.Connections.{IsShut, IsOpen, stop-IsShut}

-- Two connections come, and a loop of the first ends.
two-Run : Run (loop_ends 0 (accept 8 (accept 7 started))) (8 ∷ 7 ∷ [])
two-Run = loop_ended 0 (accepted 8 (accepted 7 start))

stop-IsShut_example :
    IsShut 7 (find 0 (stop (loop_ends 0 (accept 8 (accept 7 started)))).conn_mgr.conns)
    × IsOpen 9 (find 2 (accept 9 (stop (loop_ends 0 (accept 8 (accept 7 started))))).conn_mgr.conns)
stop-IsShut_example = stop-IsShut 0 7 9 two-Run refl

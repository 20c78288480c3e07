-- ===== src/Server/Run.antt =====
-- `Run` of internal/server/server.go.
use go_personal_web.Process.{
  listen, serve, shutdown, Stop, closed, broke, cancelled, outside, World, Run, ◌>>◌, return,
  refuse, call,
}

-- The `select`: the server ends, or the context is cancelled and the server is drained.
unfoldable pub wait : World → Stop → Run (Unit {0})
wait w closed = return tt
wait w broke = refuse (outside serve)
wait w cancelled = call w shutdown

unfoldable pub run_server : World → Run (Unit {0})
unfolding wait
run_server w = do call w listen; wait w w.stop

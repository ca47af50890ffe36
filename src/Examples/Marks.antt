-- ===== src/Examples/Marks.antt =====
-- routes/Root/RpcStatus.js on a concrete run.
use ribs.Base.{◌≡◌, refl, some, List, [], ◌∷◌}
use ribs.Rpc.Connection.{step, on_connect, on_disconnect, connect, get, create_instance}
use ribs.Root.RpcStatus.{
  ok, disconnected, Event, used, fired, opened, lost, app_step, app_run, mount,
}
use ribs.Root.Marks.{mounted, app_run-marks}

-- The first socket opens, is lost, and is replaced.
abbrev renewed : List Event
renewed = used ∷ opened 0 ∷ lost 0 ∷ fired ∷ []

renewed_socket : (app_run mounted renewed).rpc.address ≡ some 1
unfolding app_run app_step mount step on_connect on_disconnect connect get create_instance
renewed_socket = refl

app_run-marks_example :
    let a = app_run mounted renewed in
    ((app_step a (opened 1)).status ≡ ok) × ((app_step a (lost 1)).status ≡ disconnected)
app_run-marks_example = app_run-marks renewed renewed_socket

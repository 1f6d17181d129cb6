-- ===== src/Tests/Sessions.antt =====
-- A connection whose reader ends first, at the point where its writer is stuck.
use p_and_pp.Base.{◌≢◌, refl, ◌⊎◌}
use p_and_pp.Server.Session.{
  finishing, returned, ended, Session, start, Reach, here, next, reader_stops, reader_done,
  writer_stops, unregisters, pump_never_returns,
}

abbrev stuck : Session
stuck = record { reader = returned; writer = finishing; handler = ended }

history : Reach start stuck
unfolding start
history =
    next (next (next (next here (reader_stops refl)) (reader_done refl refl)) (unregisters refl))
      (writer_stops refl)

pump_never_returns_example : (stuck.reader ≢ returned) ⊎ (stuck.writer ≢ returned)
pump_never_returns_example = pump_never_returns {s = stuck} history

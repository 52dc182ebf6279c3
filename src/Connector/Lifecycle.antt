-- ===== src/Connector/Lifecycle.antt =====
-- The life of one job as its coordinator sees it, after treadmill-rs/src/api/coord_runner.rs.
use siplane.Base.{Option, none, some}
use siplane.Api.Coord.{JobState, starting, ready, stopping, finished, failed, allocating, booting}

pub data Phase : Type 0 where
  requested allocating_root is_booting is_ready is_stopping has_finished has_failed : Phase

-- The phase after a report, if the report may come then. Resources come before the boot, only a
-- boot leads to `Ready`, only a ready job is stopped, and nothing follows the end.
abbrev pub advance : Phase → JobState → Option Phase
advance requested (starting allocating text) = some allocating_root
advance requested (starting booting text) = some is_booting
advance allocating_root (starting booting text) = some is_booting
advance is_booting (ready info text) = some is_ready
advance is_ready (stopping text) = some is_stopping
advance is_stopping (finished text) = some has_finished
advance requested (failed text) = some has_failed
advance allocating_root (failed text) = some has_failed
advance is_booting (failed text) = some has_failed
advance is_stopping (failed text) = some has_failed
advance _ _ = none

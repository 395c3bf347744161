-- ===== src/Token/Local/Stored.antt =====
-- The store of internal/mcptoken/local/store.go as the one that internal/mcptoken/service.go is given.
use dataporch.Prelude.{◌<◌}
use dataporch.Fault.{ok}
use dataporch.AtomicFile.{Answers, Directory}
use dataporch.Token.{PersistedState, Store}
use dataporch.Token.Laws.{IsStore}
use dataporch.Token.Local.{Json, Calendar, Removal, load, save, delete}
use dataporch.Token.Local.Laws.{IsJson, IsCalendar, IsDigest, IsBefore, load-save, load-delete}

-- A state that the file can hold: a digest, and times before the year 10000.
abbrev pub IsStorable : Calendar → PersistedState → Type 0
IsStorable calendar p =
    IsDigest p.verifier
    × (p.created_at < calendar.year_10000)
    × IsBefore calendar.year_10000 p.rotated_at

-- The store, where the file can be looked up and read.
abbrev pub local_store : Json → Calendar → Answers → Removal → Store Directory
local_store json calendar answers outcome = record {
  load = load json calendar (ok tt) (ok tt);
  save = save json calendar answers;
  delete = delete json calendar (ok tt) outcome;
}

-- It does what it reports.
pub local_store-IsStore :
    (json : Json) (calendar : Calendar) (answers : Answers) (outcome : Removal)
    → IsJson json
    → IsCalendar calendar
    → IsStore (IsStorable calendar) (local_store json calendar answers outcome)
local_store-IsStore json calendar answers outcome j c = record {
  load_saved = λ ctx p disk fits h.
      load-save json calendar j c answers (ok tt) (ok tt) ctx p disk fits.0 fits.1 fits.2 h;
  load_deleted =
      λ ctx disk h. load-delete json calendar j c (ok tt) (ok tt) (ok tt) outcome ctx disk h;
}

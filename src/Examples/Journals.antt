-- ===== src/Examples/Journals.antt =====
-- The journal of internal/journal at concrete calls.
use avairy.Prelude.{List, [], ◌∷◌, codes}
use avairy.Journal.Record.{Kind, Record, system_data}
use avairy.Journal.Memory.{Memory, Entry, new}

abbrev entry : Entry
entry = record { kind = Kind.system; actor = codes "core"; payload = system_data []; now = 5 }

abbrev old : List Record
old =
    record { seq = 7; time = 1; kind = Kind.system; actor = codes "core"; payload = system_data [] }
    ∷ record { seq = 3; time = 2; kind = Kind.note; actor = codes "ada"; payload = system_data [] }
    ∷ []

abbrev watched : Memory
watched = record new { subs = record { id = 0; queue = [] } ∷ [] }

-- ===== src/Cache/WriteLog.antt =====
-- The log of writes of src/core/cache/writeLog.ts, which stops a read that was in flight during a
-- write from storing the body of before the write. The log of one cache is modelled; the source
-- keeps one for each cache, empty at first.
pub mod Overtaken
use esi_ts.Prelude.{
  ℕ, zero, suc, ◌+◌, ◌-◌, ◌*◌, ◌/◌, ◌%◌, ◌^◌, ◌≤◌, ◌<◌, min, max, String, ◌≡◌, refl, sym, ap, ◌∙◌,
  ◌≢◌, ◌↔◌, ◌⊎◌, inl, inr, Bool, true, false, not, ◌&&◌, ◌||◌, Option, none, some, List, [], ◌∷◌,
  ◌++◌, map, arith, str_eq, eq_iff, ltb, leb, ◌==◌, if◌then◌else◌, ltb→lt, lt→ltb, leb→le, le→leb,
  ==_iff, leb-false, ltb-false, ltb_of_le, eq_of_ne, leb_of_lt, eq_or_lt, or_default, some_inj,
  Bool-cases, Option-cases, length, take, drop, any, length-append, All, All-append, All-imp,
}
use esi_ts.Prelude.Text.{includes}

-- A recorded write: its generation and its path.
abbrev pub Write : Type 0
Write = ℕ × String

pub record WriteLog : Type 0 where
  pub generation : ℕ
  pub recent : List Write

abbrev pub empty_log : WriteLog
empty_log = record { generation = 0; recent = [] }

abbrev pub recent_writes : ℕ
recent_writes = 64

-- `shift` of an array.
abbrev pub shift : List Write → List Write
shift [] = []
shift (w ∷ ws) = ws

unfoldable pub record_write : WriteLog → String → WriteLog
record_write log path =
    let pushed = log.recent ++ (log.generation + 1, path) ∷ [] in
    record {
      generation = log.generation + 1;
      recent = if ltb recent_writes (length pushed) then shift pushed else pushed;
    }

abbrev pub covers : ℕ → String → Write → Bool
covers generation key (g, path) = ltb generation g && includes key path

unfoldable pub invalidated_since : WriteLog → ℕ → String → Bool
invalidated_since log generation key =
    if log.generation == generation
    then false
    else if ltb (length log.recent) (log.generation - generation)
    then true
    else any (covers generation key) log.recent

unfoldable pub record_all : WriteLog → List String → WriteLog
record_all log [] = log
record_all log (path ∷ paths) = record_all (record_write log path) paths

-- The log holds the last writes: one for each generation, as many as fit.
pub record IsValid (log : WriteLog) : Type 0 where
  pub fits : length log.recent ≡ min log.generation recent_writes
  pub past : All (λ w. w.0 ≤ log.generation) log.recent

-- ===== src/Cache/WriteLog/Overtaken.antt =====
-- Which reads the write log stops: those that a write overtook.
use esi_ts.Prelude.{
  ℕ, suc, ◌+◌, ◌-◌, ◌≤◌, ◌<◌, min, String, ◌≡◌, refl, sym, ap, ◌∙◌, inl, inr, true, List, [], ◌∷◌,
  ◌++◌, arith, ltb, leb, if◌then◌else◌, ltb→lt, lt→ltb, leb→le, leb-false, ltb-false, ltb_of_le,
  eq_of_ne, Bool-cases, length, any, length-append, All, All-append, All-imp,
}
use mathlib.Core.Path.{subst}
use mathlib.Core.List.{append-nil, append_assoc}
use esi_ts.Prelude.Text.{includes}
use esi_ts.Cache.WriteLog.{
  Write, WriteLog, empty_log, recent_writes, shift, record_write, covers, invalidated_since,
  record_all, IsValid,
}

-- The writes of these paths after generation `g`, as they are recorded.
numbered : ℕ → List String → List Write
numbered g [] = []
numbered g (path ∷ paths) = (g + 1, path) ∷ numbered (g + 1) paths

numbered-append :
    (g : ℕ) (ws : List String) (path : String)
    → numbered g (ws ++ path ∷ []) ≡ numbered g ws ++ (g + length ws + 1, path) ∷ []
unfolding numbered
numbered-append g [] path = ap (λ (n : ℕ). (n, path) ∷ []) (omega arith)
numbered-append g (w ∷ ws) path =
    ap (λ l. (g + 1, w) ∷ l)
      (numbered-append (g + 1) ws path
        ∙ ap (λ (n : ℕ). numbered (g + 1) ws ++ (n, path) ∷ []) (omega arith))

length-numbered : (g : ℕ) (ws : List String) → length (numbered g ws) ≡ length ws
unfolding numbered
length-numbered g [] = refl
length-numbered g (w ∷ ws) = ap suc (length-numbered (g + 1) ws)

-- The recent writes are older ones, up to generation `g`, and then these.
record SplitAt (recent : List Write) (g : ℕ) (ws : List String) : Type 0 where
  old : List Write
  parts : recent ≡ old ++ numbered g ws
  past : All (λ w. w.0 ≤ g) old

-- The log after writes of these paths since generation `g`; the split holds while all are kept.
record Since (log : WriteLog) (g : ℕ) (ws : List String) : Type 0 where
  generation : log.generation ≡ g + length ws
  fits : length log.recent ≡ min log.generation recent_writes
  split : length ws ≤ recent_writes → SplitAt log.recent g ws

pushed-SplitAt :
    (log : WriteLog) (g : ℕ) (ws : List String) (path : String)
    → log.generation ≡ g + length ws
    → SplitAt log.recent g ws
    → SplitAt (log.recent ++ (log.generation + 1, path) ∷ []) g (ws ++ path ∷ [])
pushed-SplitAt log g ws path gen s = record {
  old = s.old;
  parts =
      rw (s.parts, gen)
        (append_assoc s.old (numbered g ws) ((g + length ws + 1, path) ∷ [])
          ∙ ap (λ l. s.old ++ l) (sym (numbered-append g ws path)));
  past = s.past;
}

-- Dropping the first of more than 64 writes drops an old one.
shift-SplitAt :
    (recent : List Write) (g : ℕ) (ws : List String)
    → length ws < length recent
    → SplitAt recent g ws
    → SplitAt (shift recent) g ws
shift-SplitAt recent g ws h s = by_old s.old s.parts s.past
  where
    by_old :
        (old : List Write)
        → recent ≡ old ++ numbered g ws
        → All (λ w. w.0 ≤ g) old
        → SplitAt (shift recent) g ws
    by_old [] e past = absurd (omega (arith, ap length e, length-numbered g ws))
    by_old (w ∷ old) e (p, past) = record { old = old; parts = ap shift e; past = past }

length-shift : (ws : List Write) → length (shift ws) ≡ length ws - 1
length-shift [] = refl
length-shift (w ∷ ws) = omega arith

record_write-Since :
    (log : WriteLog) (g : ℕ) (ws : List String) (path : String)
    → Since log g ws
    → Since (record_write log path) g (ws ++ path ∷ [])
unfolding record_write
record_write-Since log g ws path s =
    let pushed : List Write = log.recent ++ (log.generation + 1, path) ∷ [] in
    let size : length pushed ≡ length log.recent + 1 = length-append log.recent _ in
    let more : length (ws ++ path ∷ []) ≡ length ws + 1 = length-append ws (path ∷ []) in
    record {
      generation = omega (arith, s.generation, more);
      fits = elim (Bool-cases (ltb recent_writes (length pushed))) [
        | inl over ↦ rw over (omega (arith, length-shift pushed, size, s.fits, ltb→lt _ _ over))
        | inr room ↦ rw room (omega (arith, size, s.fits, ltb-false _ _ room))
      ];
      split = λ h.
          let kept = pushed-SplitAt log g ws path s.generation (s.split (omega (arith, more, h))) in
          elim (Bool-cases (ltb recent_writes (length pushed))) [
            | inl over ↦
                rw over (
                  shift-SplitAt pushed g (ws ++ path ∷ []) (omega (arith, h, ltb→lt _ _ over)) kept)
            | inr room ↦ rw room kept
          ];
    }

record_all-Since :
    (log : WriteLog) (g : ℕ) (ws paths : List String)
    → Since log g ws
    → Since (record_all log paths) g (ws ++ paths)
unfolding record_all
record_all-Since log g ws [] s = rw append-nil s
record_all-Since log g ws (path ∷ paths) s =
    subst (λ l. Since (record_all (record_write log path) paths) g l)
      (append_assoc ws (path ∷ []) paths)
      (record_all-Since (record_write log path) g (ws ++ path ∷ []) paths
        (record_write-Since log g ws path s))

any-old :
    (g : ℕ) (key : String) (old rest : List Write)
    → All (λ w. w.0 ≤ g) old
    → any (covers g key) (old ++ rest) ≡ any (covers g key) rest
any-old g key [] rest h = refl
any-old g key ((n, path) ∷ old) rest (p, h) = ground (arith, any-old g key old rest h)

any-numbered :
    (g h : ℕ) (key : String) (ws : List String)
    → g ≤ h
    → any (covers g key) (numbered h ws) ≡ any (includes key) ws
unfolding numbered
any-numbered g h key [] le = refl
any-numbered g h key (w ∷ ws) le = ground (arith, any-numbered g (h + 1) key ws)

verdict :
    (log : WriteLog) (g : ℕ) (key : String) (ws : List String)
    → Since log g ws
    → invalidated_since log g key
      ≡ (if leb (length ws) recent_writes then any (includes key) ws else true)
unfolding invalidated_since
verdict log g key [] s = rw s.generation (ground arith)
verdict log g key (w ∷ ws) s = elim (Bool-cases (leb (length (w ∷ ws)) recent_writes)) [
  | inl all_kept ↦
      let kept = s.split (leb→le _ _ all_kept) in
      let same : any (covers g key) log.recent ≡ any (includes key) (w ∷ ws) =
        ap (any (covers g key)) kept.parts
        ∙ any-old g key kept.old (numbered g (w ∷ ws)) kept.past
        ∙ any-numbered g g key (w ∷ ws) (omega arith) in
      rw same (
        rw
          (ltb_of_le (length log.recent) (log.generation - g)
            (omega (arith, s.generation, s.fits, leb→le _ _ all_kept)))
          (rw (eq_of_ne log.generation g (omega (arith, s.generation))) (rw all_kept)))
  | inr lost ↦
      rw
        (lt→ltb (length log.recent) (log.generation - g)
          (omega (arith, s.generation, s.fits, leb-false _ _ lost)))
        (rw (eq_of_ne log.generation g (omega (arith, s.generation))) (rw lost))
]

valid-Since : (log : WriteLog) → IsValid log → Since log log.generation []
unfolding numbered
valid-Since log v = record {
  generation = omega arith;
  fits = v.fits;
  split = λ h. record { old = log.recent; parts = sym (append-nil log.recent); past = v.past };
}

-- After writes of these paths a read that took the generation before them is stopped exactly if
-- its key contains one of the paths, or if there were more than 64 of them.
pub invalidated_since_lem :
    (log : WriteLog) (paths : List String) (key : String)
    → IsValid log
    → invalidated_since (record_all log paths) log.generation key
      ≡ (if leb (length paths) recent_writes then any (includes key) paths else true)
invalidated_since_lem log paths key v =
    verdict (record_all log paths) log.generation key paths
      (record_all-Since log log.generation [] paths (valid-Since log v))

shift-All : (P : Write → Type 0) (ws : List Write) → All P ws → All P (shift ws)
shift-All P [] h = tt
shift-All P (w ∷ ws) (p, h) = h

record_write-IsValid :
    (log : WriteLog) (path : String) → IsValid log → IsValid (record_write log path)
unfolding record_write
record_write-IsValid log path v =
    let s = record_write-Since log log.generation [] path (valid-Since log v) in
    let AtMost : Write → Type 0 = λ w. w.0 ≤ log.generation + 1 in
    let pushed : List Write = log.recent ++ (log.generation + 1, path) ∷ [] in
    let past : All AtMost pushed =
      All-append AtMost log.recent _
        (All-imp (λ w. w.0 ≤ log.generation) AtMost (λ w h. omega arith) log.recent v.past)
        (omega arith, tt) in
    record {
      fits = unfold record_write in s.fits;
      past = elim (Bool-cases (ltb recent_writes (length pushed))) [
        | inl over ↦ rw over (shift-All AtMost pushed past)
        | inr room ↦ rw room past
      ];
    }

-- The log stays valid whatever is written.
pub record_all-IsValid :
    (log : WriteLog) (paths : List String) → IsValid log → IsValid (record_all log paths)
unfolding record_all
record_all-IsValid log [] v = v
record_all-IsValid log (path ∷ paths) v =
    record_all-IsValid (record_write log path) paths (record_write-IsValid log path v)

pub empty_log-IsValid : IsValid empty_log
empty_log-IsValid = record { fits = refl; past = tt }
